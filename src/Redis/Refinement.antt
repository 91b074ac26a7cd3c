-- ===== src/Redis/Refinement.antt =====
-- The lock calls of internal/store/redis/redis_store.go implement the contract of Lease.antt, where
-- the server answers every request.
use quorum_quest.Prelude.{
  ℤ, is_positive, IsInt32, true, String, Option, some, inl, inr, Option-cases, ◌≡◌, arith,
}
use quorum_quest.Program.{Server, execute}
use quorum_quest.Lease.{seconds, seconds_positive, acquire, release, renew}
use quorum_quest.Redis.{
  Request, Reply, set_nx, get, expire, Store, lock_key, resolve_ttl, refresh_lock_if_owned,
  try_acquire_lock, release_lock, keep_alive,
}
use quorum_quest.Redis.Server.{IsRedis, IsHealthy, ExpireTells}

module _ (S : Server Request Reply) (value : S.State → String → Option String) (R : IsRedis S value)
    (H : IsHealthy S) (s : Store) (service domain a : String) (ttl : ℤ)
    (small : IsInt32 (resolve_ttl s ttl)) (positive : is_positive (resolve_ttl s ttl) ≡ true)
    (st : S.State) where
  abbrev key : String
  key = lock_key s service domain

  abbrev lease : ℤ
  lease = seconds (resolve_ttl s ttl)

  abbrev after_get : S.State → S.State
  after_get t = (S.handle (get key) t).1

  abbrev after_set_nx : S.State
  after_set_nx = (S.handle (set_nx key a lease) st).1

  expire_keeps :
      (t : S.State)
      → ExpireTells
          (value t key)
          (value (S.handle (expire key lease) t).1 key)
          (S.handle (expire key lease) t).0
  expire_keeps t = R.on_expire t key lease (seconds_positive (resolve_ttl s ttl) small positive)

  refresh-refines :
      (t : S.State) {b : String}
      → value t key ≡ some b
      → let (r, t') = execute S (refresh_lock_if_owned key a (resolve_ttl s ttl)) t in
        (r, value t' key) ≡ acquire (value t key) a
  unfolding refresh_lock_if_owned
  refresh-refines t held = ground (
    arith,
    R.on_get t key,
    R.get_frame t key key,
    H.get_answers t key,
    H.expire_answers (after_get t) key lease,
    expire_keeps (after_get t),
  )

  try_acquire_lock-refines :
      let (r, st') = execute S (try_acquire_lock s service domain a ttl) st in
      (r, value st' (lock_key s service domain)) ≡ acquire (value st (lock_key s service domain)) a
  unfolding try_acquire_lock
  try_acquire_lock-refines = elim (Option-cases (value st key)) [
    | inl free ↦ ground (arith, R.on_set_nx st key a lease, H.set_nx_answers st key a lease)
    | inr (b, held) ↦ ground (
      arith,
      R.on_set_nx st key a lease,
      H.set_nx_answers st key a lease,
      refresh-refines after_set_nx {b = b},
    )
  ]

  release_lock-refines :
      value (execute S (release_lock s service domain a) st).1 (lock_key s service domain)
      ≡ release (value st (lock_key s service domain)) a
  unfolding release_lock
  release_lock-refines = ground (
    arith,
    R.on_get st key,
    R.get_frame st key key,
    H.get_answers st key,
    H.del_answers (after_get st) key,
    R.on_del (after_get st) key,
  )

  keep_alive-refines :
      let (r, st') = execute S (keep_alive s service domain a ttl) st in
      (r ≡ renew (value st (lock_key s service domain)) a (resolve_ttl s ttl))
      × (value st' (lock_key s service domain) ≡ value st (lock_key s service domain))
  unfolding keep_alive
  keep_alive-refines = ground (
    arith,
    R.on_get st key,
    R.get_frame st key key,
    H.get_answers st key,
    H.expire_answers (after_get st) key lease,
    expire_keeps (after_get st),
  )

  -- Where every request is answered and the lease that `resolve_ttl` picks is positive, the three lock
  -- calls answer as the contract says, and leave the lock with the holder that it says.
  pub lock_calls_refine :
      (let (r, st') = execute S (try_acquire_lock s service domain a ttl) st in
        (r, value st' (lock_key s service domain))
        ≡ acquire (value st (lock_key s service domain)) a)
      × (value (execute S (release_lock s service domain a) st).1 (lock_key s service domain)
          ≡ release (value st (lock_key s service domain)) a)
      × (let (r, st') = execute S (keep_alive s service domain a ttl) st in
          (r ≡ renew (value st (lock_key s service domain)) a (resolve_ttl s ttl))
          × (value st' (lock_key s service domain) ≡ value st (lock_key s service domain)))
  lock_calls_refine = (try_acquire_lock-refines, release_lock-refines, keep_alive-refines)
