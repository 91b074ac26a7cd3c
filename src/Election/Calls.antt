-- ===== src/Election/Calls.antt =====
-- One call of a client, over any store that keeps the contract of Election/Contract.antt.
use quorum_quest.Prelude.{
  ℤ, pos, negsuc, IsInt32, is_negative, is_positive, Bool, true, false, not, ◌||◌, String, Option,
  none, some, ◌≡◌, ◌≢◌, refl, inr, arith,
}
use quorum_quest.Program.{Server, Result, ok, err, execute}
use quorum_quest.Lease.{held_by}
use quorum_quest.Client.{Client, to_seconds, lock_request, release_request}
use quorum_quest.Client
use quorum_quest.Service.{LockStore}
use quorum_quest.Service.Handlers.{
  try_acquire_lock-serving, release_lock-serving, keep_alive-serving,
}
use quorum_quest.Election.{
  Delivery, arrives, request_lost, answer_lost, answer, handled, try_acquire, release, tick,
}
use quorum_quest.Election.Contract.{Keeps, KeepsFrom, Grants, IsSafe}

-- A client that counts itself leader holds the lock.
abbrev pub leads_held : Client → Option String → Bool
leads_held q held = not q.is_leader || held_by held q.id

-- Nobody but client `a` loses a lock.
pub kept_from :
    (q : Client) (a : String) (before after : Option String)
    → q.id ≢ a
    → KeepsFrom a before after
    → leads_held q before ≡ true
    → leads_held q after ≡ true
kept_from q a none after other k h = ground arith
kept_from q a (some x) after other k h = ground arith

kept :
    (q : Client) (before after : Option String)
    → Keeps before after
    → leads_held q before ≡ true
    → leads_held q after ≡ true
kept q none after k h = ground arith
kept q (some x) after k h = ground arith

-- What the calls make of the client that calls, for each answer.
own_acquire :
    (q : Client) (d : Delivery) (b : Bool) (before after : Option String)
    → Grants q.id b after
    → Keeps before after
    → leads_held q before ≡ true
    → leads_held (Client.try_acquire_lock (λ _. answer d (ok b)) q).1 (handled d before after)
      ≡ true
unfolding Client.try_acquire_lock
own_acquire q arrives true before after g k h = ground arith
own_acquire q arrives false before after g k h = ground arith
own_acquire q request_lost b before after g k h = h
own_acquire q answer_lost b before after g k h = kept q before after k h

own_release :
    (q : Client) (d : Delivery) (before after : Option String)
    → leads_held (Client.release_lock (λ _. answer d (ok tt)) q).1 (handled d before after) ≡ true
unfolding Client.release_lock
own_release q arrives before after = refl
own_release q request_lost before after = refl
own_release q answer_lost before after = refl

own_tick :
    (q : Client) (d : Delivery) (l : ℤ) (before after : Option String)
    → Keeps before after
    → leads_held q before ≡ true
    → leads_held (Client.tick (λ _. answer d (ok l)) q).1 (handled d before after) ≡ true
unfolding Client.tick Client.keep_alive
own_tick q arrives l before after k h = ground (arith, kept q before after k h)
own_tick q request_lost l before after k h = refl
own_tick q answer_lost l before after k h = refl

-- A keep-alive that is not answered by a lease ends the leadership.
pub tick_negative :
    (q : Client) (d : Delivery) (l : ℤ)
    → is_negative l ≡ true
    → (Client.tick (λ _. answer d (ok l)) q).1.is_leader ≡ false
unfolding Client.tick Client.keep_alive
tick_negative q arrives (negsuc n) h = refl
tick_negative q arrives (pos n) h = ground arith
tick_negative q request_lost l h = refl
tick_negative q answer_lost l h = refl

-- A lease keeps it.
pub tick_positive :
    (q : Client) (l : ℤ)
    → is_positive l ≡ true
    → (Client.tick (λ _. answer arrives (ok l)) q).1 ≡ record q { remaining_lease = l }
unfolding Client.tick Client.keep_alive
tick_positive q (pos n) h = refl
tick_positive q (negsuc n) h = ground arith

-- What no call changes of a client.
abbrev pub Same : Client → Client → Type 0
Same q p = (p.id ≡ q.id) × (p.service ≡ q.service) × (p.domain ≡ q.domain) × (p.ttl ≡ q.ttl)

pub Same-acquire :
    (q : Client) (r : Result String Bool) → Same q (Client.try_acquire_lock (λ _. r) q).1
unfolding Client.try_acquire_lock
Same-acquire q (ok b) = (refl, refl, refl, refl)
Same-acquire q (err m) = (refl, refl, refl, refl)

pub Same-release :
    (q : Client) (r : Result String (Unit {0})) → Same q (Client.release_lock (λ _. r) q).1
unfolding Client.release_lock
Same-release q (ok u) = (refl, refl, refl, refl)
Same-release q (err m) = (refl, refl, refl, refl)

pub Same-tick : (q : Client) (r : Result String ℤ) → Same q (Client.tick (λ _. r) q).1
unfolding Client.tick Client.keep_alive
Same-tick q (ok (pos n)) = (refl, refl, refl, refl)
Same-tick q (ok (negsuc n)) = (refl, refl, refl, refl)
Same-tick q (err m) = (refl, refl, refl, refl)

-- The lock's holder after a call that may have been lost.
pub handled_holder :
    {State A : Type 0} (view : State → A) (d : Delivery) (st st' : State)
    → view (handled d st st') ≡ handled d (view st) (view st')
handled_holder view arrives st st' = refl
handled_holder view request_lost st st' = refl
handled_holder view answer_lost st st' = refl

Keeps-handled :
    (d : Delivery) (a : String) (before after : Option String)
    → Keeps before after
    → KeepsFrom a before (handled d before after)
Keeps-handled d a none after k = tt
Keeps-handled arrives a (some x) after k = inr k
Keeps-handled request_lost a (some x) after k = inr refl
Keeps-handled answer_lost a (some x) after k = inr k

KeepsFrom-handled :
    (d : Delivery) (a : String) (before after : Option String)
    → KeepsFrom a before after
    → KeepsFrom a before (handled d before after)
KeepsFrom-handled d a none after k = tt
KeepsFrom-handled arrives a (some x) after k = k
KeepsFrom-handled request_lost a (some x) after k = inr refl
KeepsFrom-handled answer_lost a (some x) after k = k

module _ {Req : Type 0} {Rep : Req → Type 0} (S : Server Req Rep) (store : LockStore Req Rep)
    (holder : S.State → String → String → Option String) (safe : IsSafe S store holder)
    (metric : Option String) where
  -- One call: the caller stays itself, leads only with its lock, and takes no lock from another client.
  abbrev pub Acts : Client → S.State → Client × S.State → Type 0
  Acts q st (p, st') =
      Same q p
      × (leads_held p (holder st' q.service q.domain) ≡ true)
      × ((u e : String) → KeepsFrom q.id (holder st u e) (holder st' u e))

  module _ (q : Client) (d : Delivery) (st : S.State)
      (leads : leads_held q (holder st q.service q.domain) ≡ true) where
    pub try_acquire-Acts :
        IsInt32 (to_seconds q.ttl) → Acts q st (try_acquire S store metric d q st)
    unfolding try_acquire lock_request
    try_acquire-Acts small =
        let (b, st') =
          execute S (store.try_acquire q.service q.domain q.id (to_seconds q.ttl)) st in
        rw (try_acquire_lock-serving S store st metric (lock_request q)) (
          Same-acquire q _,
          rw (handled_holder (λ x. holder x q.service q.domain) d st st') (
              own_acquire q d b _ _
                (safe.acquire_grants st q.service q.domain q.id (to_seconds q.ttl) small)
                (safe.acquire_keeps st q.service q.domain q.id (to_seconds q.ttl) _ _ small) leads),
          λ u e. rw (handled_holder (λ x. holder x u e) d st st') (
              Keeps-handled d q.id _ _
                (safe.acquire_keeps st q.service q.domain q.id (to_seconds q.ttl) u e small)),
        )

    pub release-Acts : Acts q st (release S store metric d q st)
    unfolding release release_request
    release-Acts =
        let (_, st') = execute S (store.release q.service q.domain q.id) st in
        rw (release_lock-serving S store st metric (release_request q)) (
          Same-release q _,
          rw (handled_holder (λ x. holder x q.service q.domain) d st st') (own_release q d _ _),
          λ u e.
              rw (handled_holder (λ x. holder x u e) d st st')
                (KeepsFrom-handled d q.id _ _ (safe.release_keeps st q.service q.domain q.id u e)),
        )

    pub tick-Acts : IsInt32 (to_seconds q.ttl) → Acts q st (tick S store metric d q st)
    unfolding tick lock_request
    tick-Acts small =
        let (l, st') = execute S (store.renew q.service q.domain q.id (to_seconds q.ttl)) st in
        rw (keep_alive-serving S store st metric (lock_request q)) (
          Same-tick q _,
          rw (handled_holder (λ x. holder x q.service q.domain) d st st') (
              own_tick q d l _ _
                (safe.renew_keeps st q.service q.domain q.id (to_seconds q.ttl) _ _ small) leads),
          λ u e. rw (handled_holder (λ x. holder x u e) d st st') (
              Keeps-handled d q.id _ _
                (safe.renew_keeps st q.service q.domain q.id (to_seconds q.ttl) u e small)),
        )
