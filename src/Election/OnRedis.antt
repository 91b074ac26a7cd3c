-- ===== src/Election/OnRedis.antt =====
-- Elections over the Redis store of internal/store/redis/redis_store.go, against any server that keeps the
-- laws of Redis/Server.antt.
use quorum_quest.Prelude.{
  ℤ, is_positive, is_negative, IsInt32, true, false, String, str_dec, Option, some, ◌≡◌, ◌≢◌, ◌⊎◌,
  inl, inr, arith,
}
use quorum_quest.Program.{Server, execute}
use quorum_quest.Lease.{seconds, seconds_positive, no_lease_negative}
use quorum_quest.Redis.{
  Request, Reply, get, set_nx, Store, lock_key, resolve_ttl, refresh_lock_if_owned,
  try_acquire_lock, release_lock, keep_alive,
}
use quorum_quest.Redis.Server.{IsRedis}
use quorum_quest.Redis.Safety.{try_acquire_lock_granted, release_lock-foreign, lock_calls_frame}
use quorum_quest.Client.{Client, to_seconds, lock_request}
use quorum_quest.Service.Handlers.{keep_alive-serving}
use quorum_quest.Service.Stores.{redis_store}
use quorum_quest.Election.{Delivery, tick}
use quorum_quest.Election.Contract.{
  Keeps-same, Keeps-of, KeepsFrom-of, Grants-of, KeepsFrom-same, IsSafe,
}
use quorum_quest.Election.Calls.{tick_negative}

module _ (S : Server Request Reply) (value : S.State → String → Option String) (R : IsRedis S value)
    (s : Store) (small : IsInt32 s.ttl) (positive : is_positive s.ttl ≡ true) where
  -- The client that holds the lock.
  abbrev pub holder : S.State → String → String → Option String
  holder st u e = value st (lock_key s u e)

  pub resolved_positive : (ttl : ℤ) → is_positive (resolve_ttl s ttl) ≡ true
  unfolding resolve_ttl
  resolved_positive ttl = ground arith

  pub resolved_small : (ttl : ℤ) → IsInt32 ttl → IsInt32 (resolve_ttl s ttl)
  unfolding resolve_ttl
  resolved_small ttl h = ground arith

  module _ (st : S.State) (service domain a : String) (ttl : ℤ) (fits : IsInt32 ttl) where
    abbrev key : String
    key = lock_key s service domain

    abbrev lease : ℤ
    lease = seconds (resolve_ttl s ttl)

    pub lease_positive : is_positive lease ≡ true
    lease_positive =
        seconds_positive (resolve_ttl s ttl) (resolved_small ttl fits) (resolved_positive ttl)

    refresh_keeps :
        (t : S.State) (x : String)
        → value t (lock_key s service domain) ≡ some x
        → value
            (execute S
              (refresh_lock_if_owned (lock_key s service domain) a (resolve_ttl s ttl))
              t).1
            (lock_key s service domain)
          ≡ some x
    unfolding refresh_lock_if_owned
    refresh_keeps t x held = ground (
      arith,
      R.on_get t key,
      R.get_frame t key key,
      R.on_expire (S.handle (get key) t).1 key lease lease_positive,
    )

    pub acquire_keeps_key :
        (x : String)
        → value st (lock_key s service domain) ≡ some x
        → value
            (execute S (try_acquire_lock s service domain a ttl) st).1
            (lock_key s service domain)
          ≡ some x
    unfolding try_acquire_lock
    acquire_keeps_key x held =
        ground
          (arith, R.on_set_nx st key a lease, refresh_keeps (S.handle (set_nx key a lease) st).1 x)

    pub renew_keeps_key :
        (x : String)
        → value st (lock_key s service domain) ≡ some x
        → value (execute S (keep_alive s service domain a ttl) st).1 (lock_key s service domain)
          ≡ some x
    unfolding keep_alive
    renew_keeps_key x held = ground (
      arith,
      R.on_get st key,
      R.get_frame st key key,
      R.on_expire (S.handle (get key) st).1 key lease lease_positive,
    )

    release_keeps_key :
        (x : String)
        → value st (lock_key s service domain) ≡ some x
        → (x ≡ a)
          ⊎ (value (execute S (release_lock s service domain a) st).1 (lock_key s service domain)
              ≡ some x)
    unfolding release_lock
    release_keeps_key x held = elim (str_dec x a) [
      | yes own ↦ inl own
      | no other ↦ inr (release_lock-foreign S value R s service domain a ttl st x held other)
    ]

  -- Where the TTL of the store is positive and an int32, the Redis store keeps the contract of an
  -- election.
  pub redis_store-IsSafe : IsSafe S (redis_store s) holder
  redis_store-IsSafe = record {
    acquire_grants = λ st service domain a ttl fits. Grants-of a _ _ (λ g.
        (try_acquire_lock_granted S value R s service domain a ttl (resolved_small ttl fits)
          (resolved_positive ttl) st g).1);
    acquire_keeps = λ st service domain a ttl u e fits.
        elim (str_dec (lock_key s u e) (lock_key s service domain)) [
          | yes p ↦ rw p (Keeps-of _ _ (acquire_keeps_key st service domain a ttl fits))
          | no n ↦ Keeps-same _ _ (lock_calls_frame S value R s service domain a ttl st _ n).0
        ];
    release_keeps = λ st service domain a u e.
        elim (str_dec (lock_key s u e) (lock_key s service domain)) [
          | yes p ↦ rw p (KeepsFrom-of a _ _ (release_keeps_key st service domain a s.ttl small))
          | no n ↦
              KeepsFrom-same a _ _ (lock_calls_frame S value R s service domain a s.ttl st _ n).1
        ];
    renew_keeps = λ st service domain a ttl u e fits.
        elim (str_dec (lock_key s u e) (lock_key s service domain)) [
          | yes p ↦ rw p (Keeps-of _ _ (renew_keeps_key st service domain a ttl fits))
          | no n ↦ Keeps-same _ _ (lock_calls_frame S value R s service domain a ttl st _ n).2
        ];
  }

  lost_lease :
      (st : S.State) (service domain a : String) (ttl : ℤ)
      → value st (lock_key s service domain) ≢ some a
      → is_negative (execute S (keep_alive s service domain a ttl) st).0 ≡ true
  unfolding keep_alive
  lost_lease st service domain a ttl lost =
      ground (arith, R.on_get st (lock_key s service domain), no_lease_negative)

  -- A client whose lock has run out, or is another's by now, stops counting itself leader at its next
  -- keep-alive, whatever fails, and whether the request and its answer arrive or not.
  pub tick_steps_down :
      (metric : Option String) (d : Delivery) (q : Client) (st : S.State)
      → value st (lock_key s q.service q.domain) ≢ some q.id
      → (tick S (redis_store s) metric d q st).0.is_leader ≡ false
  unfolding tick lock_request
  tick_steps_down metric d q st lost =
      rw (keep_alive-serving S (redis_store s) st metric (lock_request q))
        (tick_negative q d _ (lost_lease st q.service q.domain q.id (to_seconds q.ttl) lost))
