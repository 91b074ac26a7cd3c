-- ===== src/Scylla/Safety.antt =====
-- The lock calls of internal/store/scylladb/scylladb_store.go against any server that keeps the laws of
-- Scylla/Server.antt. Requests may fail.
use quorum_quest.Prelude.{ℤ, true, false, String, Option, none, some, ◌≡◌, ◌≢◌, ◌⊎◌, arith}
use quorum_quest.Program.{Server, execute}
use quorum_quest.Lease.{acquire, release}
use quorum_quest.Scylla.{
  Request, Reply, Store, resolve_ttl, verify_lock_ownership, try_acquire_lock, release_lock,
  keep_alive,
}
use quorum_quest.Scylla.Server.{
  Row, client_of, IsPrepared, insert, select, IsScylla, IsFresh, IsHealthy,
}

module _ (S : Server Request Reply) (row : S.State → String → String → Option Row) (s : Store)
    (P : IsPrepared s) (Y : IsScylla S s.full_table_name row) (service domain a : String) where
  abbrev lock : S.State → Option Row
  lock st = row st service domain

  abbrev selected : S.State → S.State
  selected st = (S.handle (select s.full_table_name service domain a) st).1

  abbrev inserted : ℤ → S.State → S.State
  inserted ttl st = (S.handle (insert s.full_table_name service domain a (resolve_ttl s ttl)) st).1

  -- The check never changes a row of the table, and succeeds only for the holder where selections are
  -- up to date.
  verify_true :
      IsFresh S s.full_table_name row
      → (st : S.State) → (execute S (verify_lock_ownership s service domain a) st).0 ≡ true
      → client_of (row st service domain) ≡ some a
  unfolding verify_lock_ownership
  verify_true F st = rw P.selects (ground (arith, F.on_select st service domain a))

  pub verify_keeps :
      (st : S.State) (u e : String)
      → row (execute S (verify_lock_ownership s service domain a) st).1 u e ≡ row st u e
  unfolding verify_lock_ownership
  verify_keeps st u e = rw P.selects (ground (arith, Y.select_frame st service domain a u e))

  verify_answer :
      IsFresh S s.full_table_name row
      → IsHealthy S s.full_table_name
      → (st : S.State) → client_of (row st service domain) ≡ some a
      → (execute S (verify_lock_ownership s service domain a) st).0 ≡ true
  unfolding verify_lock_ownership
  verify_answer F H st held =
      rw P.selects
        (ground (arith, F.on_select st service domain a, H.select_answers st service domain a))

  module _ (ttl : ℤ) (st : S.State) where
    -- Where selections are up to date, a granted lock was free or the client's before, and is the client's
    -- after.
    pub try_acquire_lock_holds :
        IsFresh S s.full_table_name row
        → (execute S (try_acquire_lock s service domain a ttl) st).0 ≡ true
        → ((row st service domain ≡ none) ⊎ (client_of (row st service domain) ≡ some a))
          × (client_of
                (row (execute S (try_acquire_lock s service domain a ttl) st).1 service domain)
              ≡ some a)
    unfolding try_acquire_lock
    try_acquire_lock_holds F = rw P.inserts (
        ground (
          arith,
          Y.on_insert st service domain a (resolve_ttl s ttl),
          verify_true F (inserted ttl st),
          verify_keeps (inserted ttl st) service domain,
        ))

    -- Where every request is answered and selections are up to date, `TryAcquireLock` answers as the contract says, and leaves the lock
    -- with the holder that it says.
    pub try_acquire_lock-refines :
        IsFresh S s.full_table_name row
        → IsHealthy S s.full_table_name
        → let (r, st') = execute S (try_acquire_lock s service domain a ttl) st in
          (r, client_of (row st' service domain)) ≡ acquire (client_of (row st service domain)) a
    unfolding try_acquire_lock
    try_acquire_lock-refines F H = rw P.inserts (
        ground (
          arith,
          Y.on_insert st service domain a (resolve_ttl s ttl),
          H.insert_answers st service domain a (resolve_ttl s ttl),
          verify_true F (inserted ttl st),
          verify_answer F H (inserted ttl st),
          verify_keeps (inserted ttl st) service domain,
        ))

  -- Where every request is answered and selections are up to date, `ReleaseLock` frees the lock of its holder, and leaves the lock
  -- of another client alone.
  pub release_lock-refines :
      IsFresh S s.full_table_name row
      → IsHealthy S s.full_table_name
      → (st : S.State)
      → client_of (row (execute S (release_lock s service domain a) st).1 service domain)
        ≡ release (client_of (row st service domain)) a
  unfolding release_lock
  release_lock-refines F H st =
      rw (P.deletes, P.selects)
        (ground (
          arith,
          F.on_select st service domain a,
          Y.select_frame st service domain a service domain,
          H.select_answers st service domain a,
          H.delete_answers (selected st) service domain,
          Y.on_delete (selected st) service domain,
        ))

  module _ (st : S.State) (b : String) (other : b ≢ a) where
    pub try_acquire_lock-foreign :
        IsFresh S s.full_table_name row
        → (ttl : ℤ) → client_of (row st service domain) ≡ some b
        → let (r, st') = execute S (try_acquire_lock s service domain a ttl) st in
          (r ≡ false) × (row st' service domain ≡ row st service domain)
    unfolding try_acquire_lock
    try_acquire_lock-foreign F ttl held = rw P.inserts (
        ground (
          arith,
          Y.on_insert st service domain a (resolve_ttl s ttl),
          verify_true F (inserted ttl st),
          verify_keeps (inserted ttl st) service domain,
        ))

    pub release_lock-foreign :
        IsFresh S s.full_table_name row
        → client_of (row st service domain) ≡ some b
        → row (execute S (release_lock s service domain a) st).1 service domain
          ≡ row st service domain
    unfolding release_lock
    release_lock-foreign F held = rw P.selects (
        ground (
          arith,
          F.on_select st service domain a,
          Y.select_frame st service domain a service domain,
        ))

  module _ (ttl : ℤ) (st : S.State) (u e : String) (apart : (u ≢ service) ⊎ (e ≢ domain)) where
    try_acquire_lock-frame :
        row (execute S (try_acquire_lock s service domain a ttl) st).1 u e ≡ row st u e
    unfolding try_acquire_lock
    try_acquire_lock-frame = rw P.inserts (
        ground (
          arith,
          Y.insert_frame st service domain a (resolve_ttl s ttl) u e apart,
          verify_keeps (inserted ttl st) u e,
        ))

    release_lock-frame : row (execute S (release_lock s service domain a) st).1 u e ≡ row st u e
    unfolding release_lock
    release_lock-frame =
        rw (P.deletes, P.selects)
          (ground (
            arith,
            Y.select_frame st service domain a u e,
            Y.delete_frame (selected st) service domain u e apart,
          ))

    keep_alive-frame :
        (format_int : ℤ → String)
        → row (execute S (keep_alive format_int s service domain a ttl) st).1 u e ≡ row st u e
    unfolding keep_alive
    keep_alive-frame format_int =
        rw P.inserts
          (ground (arith, Y.insert_frame st service domain a (resolve_ttl s ttl) u e apart))

    -- No lock call, failing or not, changes the row of another service or another domain.
    pub other_rows_kept :
        (format_int : ℤ → String)
        → (row (execute S (try_acquire_lock s service domain a ttl) st).1 u e ≡ row st u e)
          × (row (execute S (release_lock s service domain a) st).1 u e ≡ row st u e)
          × (row (execute S (keep_alive format_int s service domain a ttl) st).1 u e ≡ row st u e)
    other_rows_kept format_int =
        (try_acquire_lock-frame, release_lock-frame, keep_alive-frame format_int)
