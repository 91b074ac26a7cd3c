-- ===== src/Client/Leadership.antt =====
-- client/go/quorum-quest-client/client.go: what a client that counts itself leader has.
use quorum_quest.Prelude.{
  ℤ, pos, is_positive, is_negative, ltb_ℤ, times64, Bool, true, false, not, ◌&&◌, String, ◌≡◌,
  arith,
}
use quorum_quest.Program.{Result, ok, err}
use quorum_quest.Lease.{seconds}
use quorum_quest.Redis
use quorum_quest.Client.{
  Client, LockRequest, ReleaseRequest, lock_request, try_acquire_lock, release_lock, keep_alive,
  tick, start_keep_alive, stop_keep_alive, refresh_interval, already_running,
}

-- A client has a positive TTL, and leads only with a lease that is not negative.
abbrev pub is_sound : Client → Bool
is_sound q = is_positive q.ttl && not (q.is_leader && is_negative q.remaining_lease)

-- Every method keeps a client sound, whatever the server answers: its TTL stays positive, and it leads
-- only with a remaining lease that is not negative.
pub client_sound :
    (q : Client) (acquire : LockRequest → Result String Bool)
    (release : ReleaseRequest → Result String (Unit {0})) (renew : LockRequest → Result String ℤ)
    → is_sound q ≡ true
    → (is_sound (try_acquire_lock acquire q).1 ≡ true)
      × (is_sound (release_lock release q).1 ≡ true)
      × (is_sound (keep_alive renew q).1 ≡ true)
      × (is_sound (tick renew q).1 ≡ true)
      × (is_sound (start_keep_alive q).1 ≡ true)
      × (is_sound (stop_keep_alive q) ≡ true)
unfolding try_acquire_lock release_lock keep_alive tick start_keep_alive stop_keep_alive
client_sound q acquire release renew h = ground arith

-- What the server's answer to a keep-alive says.
abbrev pub holds : Result String ℤ → Bool
holds (err m) = false
holds (ok lease) = not (is_negative lease)

-- The keep-alive goroutine goes on exactly if the server answers with a lease that is not negative;
-- when it ends, the client does not lead.
pub tick_ends :
    (q : Client) (renew : LockRequest → Result String ℤ)
    → let (goes_on, q', es) = tick renew q in
      (goes_on ≡ holds (renew (lock_request q))) × ((not goes_on && q'.is_leader) ≡ false)
unfolding keep_alive tick
tick_ends q renew = ground arith

-- A goroutine that has ended leaves `notifyStop` as it was: the keep-alive cannot be started again
-- before it is stopped, and can after.
pub start_keep_alive_refused :
    (q : Client) (renew : LockRequest → Result String ℤ)
    → q.running ≡ true
    → let (goes_on, q', es) = tick renew q in
      ((start_keep_alive q').0 ≡ err already_running)
      × ((start_keep_alive (stop_keep_alive q')).0 ≡ ok tt)
unfolding keep_alive tick start_keep_alive stop_keep_alive
start_keep_alive_refused q renew h = ground arith

-- The first refresh comes after the end of the lease exactly if the TTL is below three seconds, for a
-- positive TTL.
pub refresh_interval_late :
    (q : Client)
    → is_positive q.ttl ≡ true
    → ltb_ℤ q.ttl (refresh_interval q) ≡ ltb_ℤ q.ttl (seconds (pos 3))
unfolding refresh_interval times64
refresh_interval_late q h = ground arith

-- A positive TTL of less than a second is sent as 0, for which the Redis store takes its own TTL.
pub lock_request-resolve_ttl :
    (q : Client) (s : Redis.Store)
    → is_positive q.ttl ≡ true
    → ltb_ℤ q.ttl (seconds (pos 1)) ≡ true
    → Redis.resolve_ttl s (lock_request q).ttl ≡ s.ttl
unfolding lock_request times64 Redis.resolve_ttl
lock_request-resolve_ttl q s h l = ground arith
