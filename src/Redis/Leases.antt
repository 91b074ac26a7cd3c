-- ===== src/Redis/Leases.antt =====
-- What the lock calls of internal/store/redis/redis_store.go do to the deadlines of the keys, against any
-- server that keeps the laws of Redis/Server.antt and Redis/Expiry.antt. Requests may fail.
use quorum_quest.Prelude.{
  ℕ, ℤ, plus, is_positive, is_negative, true, false, Bool, String, Option, none, some, ◌≡◌, ◌≢◌,
  ◌⊎◌, arith,
}
use quorum_quest.Program.{Server, execute}
use quorum_quest.Lease.{seconds, no_lease_negative}
use quorum_quest.Redis.{
  Request, Reply, set_nx, get, expire, Store, lock_key, resolve_ttl, refresh_lock_if_owned,
  try_acquire_lock, release_lock, keep_alive,
}
use quorum_quest.Redis.Server.{IsRedis}
use quorum_quest.Redis.Expiry.{IsExpiring}

module _ (S : Server Request Reply) (value : S.State → String → Option String) (R : IsRedis S value)
    (deadline : S.State → String → ℤ) (moment : S.State → ℕ) (pass : ℕ → S.State → S.State)
    (X : IsExpiring S value deadline moment pass) where
  abbrev after_get : S.State → String → S.State
  after_get st key = (S.handle (get key) st).1

  module _ (key a : String) (ttl : ℤ) (positive : is_positive (seconds ttl) ≡ true)
      (t : S.State) where
    abbrev refreshed : Bool × S.State
    refreshed = execute S (refresh_lock_if_owned key a ttl) t

    refresh_moment : moment (execute S (refresh_lock_if_owned key a ttl) t).1 ≡ moment t
    unfolding refresh_lock_if_owned
    refresh_moment =
        ground (
          arith,
          X.on_request t (get key),
          X.on_request (after_get t key) (expire key (seconds ttl)),
        )

    refresh_dates :
        let (b, t') = execute S (refresh_lock_if_owned key a ttl) t in
        b ≡ true → deadline t' key ≡ plus (moment t) (seconds ttl)
    unfolding refresh_lock_if_owned
    refresh_dates = ground (
      arith,
      R.on_get t key,
      R.get_frame t key key,
      R.on_expire (after_get t key) key (seconds ttl) positive,
      X.expire_dates (after_get t key) key (seconds ttl) positive,
      X.on_request t (get key),
    )

    refresh_own :
        let t' = (execute S (refresh_lock_if_owned key a ttl) t).1 in
        value t key ≢ none
        → (deadline t' key ≡ deadline t key) ⊎ (deadline t' key ≡ plus (moment t) (seconds ttl))
    unfolding refresh_lock_if_owned
    refresh_own = ground (
      arith,
      R.get_frame t key key,
      R.on_expire (after_get t key) key (seconds ttl) positive,
      X.expire_dates (after_get t key) key (seconds ttl) positive,
      X.on_request t (get key),
      X.get_dates t key key,
    )

    refresh_dates_foreign :
        (x : String)
        → value t key ≡ some x
        → x ≢ a
        → deadline (execute S (refresh_lock_if_owned key a ttl) t).1 key ≡ deadline t key
    unfolding refresh_lock_if_owned
    refresh_dates_foreign x held other = ground (arith, R.on_get t key, X.get_dates t key key)

  abbrev after_set_nx : S.State → String → String → ℤ → S.State
  after_set_nx st key a ttl = (S.handle (set_nx key a (seconds ttl)) st).1

  refresh_deadlines_frame :
      (st : S.State) (key a : String) (ttl : ℤ) (j : String)
      → j ≢ key
      → deadline (execute S (refresh_lock_if_owned key a ttl) st).1 j ≡ deadline st j
  unfolding refresh_lock_if_owned
  refresh_deadlines_frame st key a ttl j n =
      ground (arith, X.get_dates st key j, X.expire_frame (after_get st key) key (seconds ttl) j n)

  module _ (s : Store) (service domain a : String) (ttl : ℤ)
      (positive : is_positive (seconds (resolve_ttl s ttl)) ≡ true) (st : S.State) where
    abbrev key : String
    key = lock_key s service domain

    abbrev lease : ℤ
    lease = resolve_ttl s ttl

    -- A granted lock is leased from the moment of the call.
    pub acquire_dates :
        let (b, st') = execute S (try_acquire_lock s service domain a ttl) st in
        b ≡ true
        → deadline st' (lock_key s service domain) ≡ plus (moment st) (seconds (resolve_ttl s ttl))
    unfolding try_acquire_lock
    acquire_dates = ground (
      arith,
      X.on_request st (set_nx key a (seconds lease)),
      X.set_nx_dates st key a (seconds lease),
      refresh_dates key a lease positive (after_set_nx st key a lease),
    )

    pub renew_dates :
        let (l, st') = execute S (keep_alive s service domain a ttl) st in
        is_negative l ≡ false
        → (value st (lock_key s service domain) ≡ some a)
          × (deadline st' (lock_key s service domain)
              ≡ plus (moment st) (seconds (resolve_ttl s ttl)))
    unfolding keep_alive
    renew_dates = ground (
      arith,
      R.on_get st key,
      no_lease_negative,
      X.on_request st (get key),
      X.expire_dates (after_get st key) key (seconds lease) positive,
    )

    -- The caller's own lease ends when it did, or is renewed.
    pub acquire_own :
        (x : String)
        → value st (lock_key s service domain) ≡ some x
        → let st' = (execute S (try_acquire_lock s service domain a ttl) st).1 in
          (deadline st' (lock_key s service domain) ≡ deadline st (lock_key s service domain))
          ⊎ (deadline st' (lock_key s service domain)
              ≡ plus (moment st) (seconds (resolve_ttl s ttl)))
    unfolding try_acquire_lock
    acquire_own x held = ground (
      arith,
      R.on_set_nx st key a (seconds lease),
      X.on_request st (set_nx key a (seconds lease)),
      X.set_nx_dates st key a (seconds lease),
      refresh_own key a lease positive (after_set_nx st key a lease),
    )

    pub renew_own :
        (x : String)
        → value st (lock_key s service domain) ≡ some x
        → let st' = (execute S (keep_alive s service domain a ttl) st).1 in
          (deadline st' (lock_key s service domain) ≡ deadline st (lock_key s service domain))
          ⊎ (deadline st' (lock_key s service domain)
              ≡ plus (moment st) (seconds (resolve_ttl s ttl)))
    unfolding keep_alive
    renew_own x held = ground (
      arith,
      R.get_frame st key key,
      R.on_expire (after_get st key) key (seconds lease) positive,
      X.expire_dates (after_get st key) key (seconds lease) positive,
      X.on_request st (get key),
      X.get_dates st key key,
    )

    -- No lock call touches the deadline of another client's lock, or of another key.
    module _ (x : String) (held : value st (lock_key s service domain) ≡ some x)
        (foreign : x ≢ a) where
      pub acquire_foreign :
          deadline
            (execute S (try_acquire_lock s service domain a ttl) st).1
            (lock_key s service domain)
          ≡ deadline st (lock_key s service domain)
      unfolding try_acquire_lock
      acquire_foreign = ground (
        arith,
        R.on_set_nx st key a (seconds lease),
        X.set_nx_dates st key a (seconds lease),
        refresh_dates_foreign key a lease positive (after_set_nx st key a lease) x,
      )

      pub release_foreign :
          deadline (execute S (release_lock s service domain a) st).1 (lock_key s service domain)
          ≡ deadline st (lock_key s service domain)
      unfolding release_lock
      release_foreign = ground (arith, R.on_get st key, X.get_dates st key key)

      pub renew_foreign :
          deadline (execute S (keep_alive s service domain a ttl) st).1 (lock_key s service domain)
          ≡ deadline st (lock_key s service domain)
      unfolding keep_alive
      renew_foreign = ground (arith, R.on_get st key, X.get_dates st key key)

    module _ (j : String) (n : j ≢ lock_key s service domain) where
      pub acquire_frame :
          deadline (execute S (try_acquire_lock s service domain a ttl) st).1 j ≡ deadline st j
      unfolding try_acquire_lock
      acquire_frame = ground (
        arith,
        X.set_nx_frame st key a (seconds lease) j n,
        refresh_deadlines_frame (after_set_nx st key a lease) key a lease j n,
      )

      pub release_frame :
          deadline (execute S (release_lock s service domain a) st).1 j ≡ deadline st j
      unfolding release_lock
      release_frame = ground (arith, X.get_dates st key j, X.del_frame (after_get st key) key j n)

      pub renew_frame :
          deadline (execute S (keep_alive s service domain a ttl) st).1 j ≡ deadline st j
      unfolding keep_alive
      renew_frame =
          ground
            (arith, X.get_dates st key j, X.expire_frame (after_get st key) key (seconds lease) j n)
