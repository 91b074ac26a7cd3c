-- ===== src/Redis/Safety.antt =====
-- The lock calls of internal/store/redis/redis_store.go against any server that keeps the laws of
-- Redis/Server.antt. Requests may fail.
use quorum_quest.Prelude.{
  ℤ, is_positive, IsInt32, true, false, String, Option, none, some, ◌≡◌, ◌≢◌, ◌⊎◌, arith,
}
use quorum_quest.Program.{Server, execute}
use quorum_quest.Lease.{seconds, seconds_positive, no_lease}
use quorum_quest.Redis.{
  Request, Reply, set_nx, get, Store, lock_key, resolve_ttl, refresh_lock_if_owned,
  try_acquire_lock, release_lock, keep_alive,
}
use quorum_quest.Redis.Server.{IsRedis}

module _ (S : Server Request Reply) (value : S.State → String → Option String)
    (R : IsRedis S value) where
  -- Once GET has answered, the lock is where it was.
  abbrev after_get : S.State → String → S.State
  after_get st key = (S.handle (get key) st).1

  abbrev after_set_nx : S.State → String → String → ℤ → S.State
  after_set_nx st key a ttl = (S.handle (set_nx key a (seconds ttl)) st).1

  module _ (key a : String) (ttl : ℤ) (small : IsInt32 ttl)
      (positive : is_positive ttl ≡ true) where
    refresh_granted :
        (st : S.State)
        → let (b, st') = execute S (refresh_lock_if_owned key a ttl) st in
          b ≡ true → (value st key ≡ some a) × (value st' key ≡ some a)
    unfolding refresh_lock_if_owned
    refresh_granted st = ground (
      arith,
      R.on_get st key,
      R.get_frame st key key,
      R.on_expire (after_get st key) key (seconds ttl) (seconds_positive ttl small positive),
    )

  module _ (st : S.State) (key a b : String) (ttl : ℤ) (held : value st key ≡ some b)
      (other : b ≢ a) where
    refresh_foreign :
        let (r, st') = execute S (refresh_lock_if_owned key a ttl) st in
        (r ≡ false) × (value st' key ≡ some b)
    unfolding refresh_lock_if_owned
    refresh_foreign = ground (arith, R.on_get st key, R.get_frame st key key)

  refresh_frame :
      (st : S.State) (key a : String) (ttl : ℤ) (j : String)
      → j ≢ key
      → value (execute S (refresh_lock_if_owned key a ttl) st).1 j ≡ value st j
  unfolding refresh_lock_if_owned
  refresh_frame st key a ttl j n =
      ground (arith, R.get_frame st key j, R.expire_frame (after_get st key) key (seconds ttl) j n)

  module _ (s : Store) (service domain a : String) (ttl : ℤ) where
    abbrev key : String
    key = lock_key s service domain

    abbrev lease : ℤ
    lease = resolve_ttl s ttl

    -- A granted lock was free or the client's before, and is the client's after, where the lease
    -- that `resolve_ttl` picks is positive.
    pub try_acquire_lock_granted :
        IsInt32 (resolve_ttl s ttl)
        → is_positive (resolve_ttl s ttl) ≡ true
        → (st : S.State) → (execute S (try_acquire_lock s service domain a ttl) st).0 ≡ true
        → ((value st (lock_key s service domain) ≡ none)
            ⊎ (value st (lock_key s service domain) ≡ some a))
          × (value
                (execute S (try_acquire_lock s service domain a ttl) st).1
                (lock_key s service domain)
              ≡ some a)
    unfolding try_acquire_lock
    try_acquire_lock_granted small positive st granted = ground (
      arith,
      R.on_set_nx st key a (seconds lease),
      refresh_granted key a lease small positive (after_set_nx st key a lease),
    )

    pub try_acquire_lock-foreign :
        (st : S.State) (b : String)
        → value st (lock_key s service domain) ≡ some b
        → b ≢ a
        → let (r, st') = execute S (try_acquire_lock s service domain a ttl) st in
          (r ≡ false) × (value st' (lock_key s service domain) ≡ some b)
    unfolding try_acquire_lock
    try_acquire_lock-foreign st b held other = ground (
      arith,
      R.on_set_nx st key a (seconds lease),
      refresh_foreign (after_set_nx st key a lease) key a b lease,
    )

    pub release_lock-foreign :
        (st : S.State) (b : String)
        → value st (lock_key s service domain) ≡ some b
        → b ≢ a
        → value (execute S (release_lock s service domain a) st).1 (lock_key s service domain)
          ≡ some b
    unfolding release_lock
    release_lock-foreign st b held other = ground (arith, R.on_get st key, R.get_frame st key key)

    pub keep_alive-foreign :
        (st : S.State) (b : String)
        → value st (lock_key s service domain) ≡ some b
        → b ≢ a
        → let (r, st') = execute S (keep_alive s service domain a ttl) st in
          (r ≡ no_lease) × (value st' (lock_key s service domain) ≡ some b)
    unfolding keep_alive
    keep_alive-foreign st b held other = ground (arith, R.on_get st key, R.get_frame st key key)

    module _ (st : S.State) (j : String) (n : j ≢ lock_key s service domain) where
      try_acquire_lock-frame :
          value (execute S (try_acquire_lock s service domain a ttl) st).1 j ≡ value st j
      unfolding try_acquire_lock
      try_acquire_lock-frame = ground (
        arith,
        R.set_nx_frame st key a (seconds lease) j n,
        refresh_frame (after_set_nx st key a lease) key a lease j n,
      )

      release_lock-frame : value (execute S (release_lock s service domain a) st).1 j ≡ value st j
      unfolding release_lock
      release_lock-frame =
          ground (arith, R.get_frame st key j, R.del_frame (after_get st key) key j n)

      keep_alive-frame : value (execute S (keep_alive s service domain a ttl) st).1 j ≡ value st j
      unfolding keep_alive
      keep_alive-frame =
          ground
            (arith, R.get_frame st key j, R.expire_frame (after_get st key) key (seconds lease) j n)

      -- No lock call, failing or not, changes what another key of the server holds.
      pub lock_calls_frame :
          (value (execute S (try_acquire_lock s service domain a ttl) st).1 j ≡ value st j)
          × (value (execute S (release_lock s service domain a) st).1 j ≡ value st j)
          × (value (execute S (keep_alive s service domain a ttl) st).1 j ≡ value st j)
      lock_calls_frame = (try_acquire_lock-frame, release_lock-frame, keep_alive-frame)
