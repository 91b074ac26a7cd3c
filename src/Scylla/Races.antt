-- ===== src/Scylla/Races.antt =====
-- `ReleaseLock` of internal/store/scylladb/scylladb_store.go checks the holder and deletes the row in two
-- requests. `advance` stops the call behind the first. `TryAcquireLock` reads the row back.
use quorum_quest.Prelude.{ℤ, true, String, Option, none, some, ◌≡◌, arith}
use quorum_quest.Program.{Server, ok, execute, advance}
use quorum_quest.Scylla.{
  Request, Reply, Store, resolve_ttl, verify_lock_ownership, try_acquire_lock, release_lock,
}
use quorum_quest.Scylla.Safety.{verify_keeps}
use quorum_quest.Scylla.Server.{
  Row, client_of, IsPrepared, insert, select, IsScylla, IsFresh, IsHealthy,
}

-- The deletion carries no condition: if the caller held the lock at the check and a client `b` holds
-- it at the deletion, the row of `b` is deleted, where every request is answered
-- and selections are up to date.
pub release_lock_deletes_row :
    (S : Server Request Reply) (row : S.State → String → String → Option Row) (s : Store)
    → IsPrepared s
    → IsScylla S s.full_table_name row
    → IsFresh S s.full_table_name row
    → IsHealthy S s.full_table_name
    → (service domain a b : String) (st later : S.State)
    → client_of (row st service domain) ≡ some a
    → client_of (row later service domain) ≡ some b
    → let (rest, _) = advance S (release_lock s service domain a) st in
      row (execute S rest later).1 service domain ≡ none
unfolding release_lock
release_lock_deletes_row S row s P Y F H service domain a b st later held lost =
    rw (P.deletes, P.selects)
      (ground (
        arith,
        F.on_select st service domain a,
        H.select_answers st service domain a,
        H.delete_answers later service domain,
        Y.on_delete later service domain,
      ))

-- What the read-back of a row answers is what its selection names.
verify_named :
    (S : Server Request Reply) (s : Store)
    → IsPrepared s
    → (service domain a : String) (st : S.State)
    → (S.handle (select s.full_table_name service domain a) st).0 ≡ ok a
    → (execute S (verify_lock_ownership s service domain a) st).0 ≡ true
unfolding verify_lock_ownership
verify_named S s P service domain a st named = rw P.selects (ground arith)

-- A selection that answers with an older row grants a held lock: `TryAcquireLock` answers the caller that
-- it leads, and the row stays with the other client. Every request is answered.
pub stale_selection_grants :
    (S : Server Request Reply) (row : S.State → String → String → Option Row) (s : Store)
    → IsPrepared s
    → IsScylla S s.full_table_name row
    → IsHealthy S s.full_table_name
    → (service domain a b : String) (ttl expiry : ℤ) (st : S.State)
    → row st service domain ≡ some (b, expiry)
    → let st' = (S.handle (insert s.full_table_name service domain a (resolve_ttl s ttl)) st).1 in
      (S.handle (select s.full_table_name service domain a) st').0 ≡ ok a
      → let (r, st'') = execute S (try_acquire_lock s service domain a ttl) st in
        (r ≡ true) × (row st'' service domain ≡ some (b, expiry))
unfolding try_acquire_lock
stale_selection_grants S row s P Y H service domain a b ttl expiry st held stale =
    let st' = (S.handle (insert s.full_table_name service domain a (resolve_ttl s ttl)) st).1 in
    rw P.inserts (
      ground (
        arith,
        Y.on_insert st service domain a (resolve_ttl s ttl),
        H.insert_answers st service domain a (resolve_ttl s ttl),
        verify_named S s P service domain a st' stale,
        verify_keeps S row s P Y service domain a st' service domain,
      ))
