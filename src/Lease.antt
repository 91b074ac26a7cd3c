-- ===== src/Lease.antt =====
-- What the three stores share: lease lengths (time.Duration values) and the contract of
-- internal/store/lock_store.go for one lock.
use quorum_quest.Prelude.{
  ℤ, pos, negsuc, times64, times64-seconds, is_positive, is_negative, IsInt32, Bool, true, String,
  str_eq, Option, none, some, if◌then◌else◌, ◌≡◌, ◌||◌, false, arith, ℕ, plus, ltb_ℤ, zero, suc,
  refl,
}

-- `time.Duration(n) * time.Second`, in nanoseconds as an int64.
abbrev pub seconds : ℤ → ℤ
seconds n = times64 n 1000000000

-- `time.Duration(-1) * time.Second`, the lease of a client that holds no lock.
abbrev pub no_lease : ℤ
no_lease = seconds (negsuc 0)

pub no_lease_negative : is_negative no_lease ≡ true
unfolding times64
no_lease_negative = ground arith

pub seconds_positive : (n : ℤ) → IsInt32 n → is_positive n ≡ true → is_positive (seconds n) ≡ true
seconds_positive (pos n) h p = rw (times64-seconds (pos n) h) (ground arith)
seconds_positive (negsuc n) h p = ground arith

-- `_ttl` of the stores for tests: 0 stands for the default.
abbrev pub unless_zero : ℤ → ℤ → ℤ
unless_zero (pos zero) default = default
unless_zero ttl default = ttl

pub unless_zero_lem :
    (ttl default : ℤ)
    → is_negative ttl ≡ false
    → unless_zero ttl default ≡ (if is_positive ttl then ttl else default)
unless_zero_lem (pos zero) default h = refl
unless_zero_lem (pos (suc n)) default h = ground arith
unless_zero_lem (negsuc n) default h = ground arith

-- The contract for one lock, whose holder is an `Option String`: what a call answers, and who holds
-- the lock after it.
-- `TryAcquireLock`: a free lock is taken, and its holder is granted it again.
abbrev pub acquire : Option String → String → Bool × Option String
acquire none client = (true, some client)
acquire (some holder) client = (str_eq holder client, some holder)

-- `ReleaseLock`: the lock of another client is left alone.
abbrev pub release : Option String → String → Option String
release none client = none
release (some holder) client = if str_eq holder client then none else some holder

-- `KeepAlive`: the new lease, or a negative one for a client that does not hold the lock.
abbrev pub renew : Option String → String → ℤ → ℤ
renew none client ttl = no_lease
renew (some holder) client ttl = if str_eq holder client then seconds ttl else no_lease

-- Whether the client holds the lock.
abbrev pub held_by : Option String → String → Bool
held_by none client = false
held_by (some holder) client = str_eq holder client

-- The same contract for a lock that carries the moment it runs out, in seconds, where the caller's
-- clock shows `now`: a lock that has run out may be taken over. Until it is, its holder may still
-- extend it, as the condition in `KeepAlive` of internal/store/dynamodb/dynamodb_store.go lets it.
abbrev pub Timed : Type 0
Timed = Option (String × ℤ)

abbrev pub take_timed : ℕ → String → ℤ → Timed → Bool × Timed
take_timed now client ttl none = (true, some (client, plus now ttl))
take_timed now client ttl (some (holder, expiry)) =
    if ltb_ℤ expiry (pos now) || str_eq holder client
    then (true, some (client, plus now ttl))
    else (false, some (holder, expiry))

abbrev pub drop_timed : String → Timed → Timed
drop_timed client none = none
drop_timed client (some (holder, expiry)) =
    if str_eq holder client then none else some (holder, expiry)

abbrev pub extend_timed : ℕ → String → ℤ → Timed → ℤ × Timed
extend_timed now client ttl none = (no_lease, none)
extend_timed now client ttl (some (holder, expiry)) =
    if str_eq holder client
    then (seconds ttl, some (holder, plus now ttl))
    else (no_lease, some (holder, expiry))
