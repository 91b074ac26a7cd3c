-- ===== src/Redis/Races.antt =====
-- What another client may do between two requests of one call of
-- internal/store/redis/redis_store.go. `advance` stops a call behind its next request, and the rest
-- of it runs later, in a state that the server has reached by then.
use quorum_quest.Prelude.{ℤ, is_positive, IsInt32, true, String, Option, none, some, ◌≡◌, arith}
use quorum_quest.Program.{Server, execute, advance}
use quorum_quest.Lease.{seconds, seconds_positive, no_lease}
use quorum_quest.Redis.{
  Request, Reply, set_nx, Store, lock_key, resolve_ttl, try_acquire_lock, release_lock, keep_alive,
}
use quorum_quest.Redis.Server.{IsRedis, IsHealthy}

module _ (S : Server Request Reply) (value : S.State → String → Option String) (R : IsRedis S value)
    (H : IsHealthy S) (s : Store) (service domain a : String) where
  abbrev key : String
  key = lock_key s service domain

  -- `ReleaseLock` reads the holder and deletes the key in two requests. If the caller held the lock at
  -- the first and another client `b` holds it at the second, and the server answers every request, the
  -- lock of `b` is deleted.
  pub release_lock_race :
      (st later : S.State) (b : String)
      → value st (lock_key s service domain) ≡ some a
      → value later (lock_key s service domain) ≡ some b
      → let (rest, _) = advance S (release_lock s service domain a) st in
        value (execute S rest later).1 (lock_key s service domain) ≡ none
  unfolding release_lock
  release_lock_race st later b held lost =
      ground
        (arith, R.on_get st key, H.get_answers st key, H.del_answers later key, R.on_del later key)

  module _ (ttl : ℤ) (small : IsInt32 (resolve_ttl s ttl))
      (positive : is_positive (resolve_ttl s ttl) ≡ true) where
    abbrev lease : ℤ
    lease = seconds (resolve_ttl s ttl)

    -- `TryAcquireLock` of the holder ignores the answer of EXPIRE: if the lock is gone when EXPIRE is
    -- sent, the server answers every request and the lease that `resolve_ttl` picks is positive, the
    -- call returns true, and nobody holds the lock.
    pub try_acquire_lock_race :
        (st later : S.State)
        → value st (lock_key s service domain) ≡ some a
        → value later (lock_key s service domain) ≡ none
        → let (second, st') = advance S (try_acquire_lock s service domain a ttl) st in
          let (third, _) = advance S second st' in
          let (r, final) = execute S third later in
          (r ≡ true) × (value final (lock_key s service domain) ≡ none)
    unfolding try_acquire_lock
    try_acquire_lock_race st later held lost =
        let st' = (S.handle (set_nx key a lease) st).1 in
        ground (
          arith,
          R.on_set_nx st key a lease,
          H.set_nx_answers st key a lease,
          R.on_get st' key,
          H.get_answers st' key,
          H.expire_answers later key lease,
          R.on_expire later key lease (seconds_positive (resolve_ttl s ttl) small positive),
        )

    -- `KeepAlive` looks at the answer of EXPIRE: if the lock runs out between GET and EXPIRE, the call
    -- reports that there is no lease.
    pub keep_alive_expired :
        (st later : S.State)
        → value st (lock_key s service domain) ≡ some a
        → value later (lock_key s service domain) ≡ none
        → let (rest, _) = advance S (keep_alive s service domain a ttl) st in
          (execute S rest later).0 ≡ no_lease
    unfolding keep_alive
    keep_alive_expired st later held lost = ground (
      arith,
      R.on_get st key,
      H.get_answers st key,
      H.expire_answers later key lease,
      R.on_expire later key lease (seconds_positive (resolve_ttl s ttl) small positive),
    )

    -- If the caller held the lock at GET and another client `b` holds it at EXPIRE, `KeepAlive` reports
    -- the full lease to the caller, and `b` holds the lock, where the server answers every request and
    -- the lease that `resolve_ttl` picks is positive.
    pub keep_alive_race :
        (st later : S.State) (b : String)
        → value st (lock_key s service domain) ≡ some a
        → value later (lock_key s service domain) ≡ some b
        → let (rest, _) = advance S (keep_alive s service domain a ttl) st in
          let (r, final) = execute S rest later in
          (r ≡ seconds (resolve_ttl s ttl)) × (value final (lock_key s service domain) ≡ some b)
    unfolding keep_alive
    keep_alive_race st later b held lost = ground (
      arith,
      R.on_get st key,
      H.get_answers st key,
      H.expire_answers later key lease,
      R.on_expire later key lease (seconds_positive (resolve_ttl s ttl) small positive),
    )
