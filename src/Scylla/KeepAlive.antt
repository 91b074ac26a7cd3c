-- ===== src/Scylla/KeepAlive.antt =====
-- `KeepAlive` of internal/store/scylladb/scylladb_store.go, which runs the insertion of
-- `TryAcquireLock` and does not look at who holds the lock.
use quorum_quest.Prelude.{ℤ, String, Option, none, some, ◌≡◌, arith}
use quorum_quest.Program.{Server, execute}
use quorum_quest.Lease.{seconds}
use quorum_quest.Scylla.{Request, Reply, Store, resolve_ttl, keep_alive}
use quorum_quest.Scylla.Server.{Row, client_of, IsPrepared, IsScylla, IsHealthy}

module _ (S : Server Request Reply) (row : S.State → String → String → Option Row) (s : Store)
    (P : IsPrepared s) (Y : IsScylla S s.full_table_name row) (format_int : ℤ → String)
    (service domain a : String) (ttl : ℤ) (st : S.State) where
  -- A held lock is never refreshed, and never taken from its holder: whoever calls, the row stays as it
  -- was, with the moment when its time is over. Where every request is answered, the caller is told that
  -- its lease has the full length, whether it holds the lock or not.
  pub keep_alive_held :
      IsHealthy S s.full_table_name
      → (r : Row) → row st service domain ≡ some r
      → let (lease, st') = execute S (keep_alive format_int s service domain a ttl) st in
        (lease ≡ seconds (resolve_ttl s ttl)) × (row st' service domain ≡ some r)
  unfolding keep_alive
  keep_alive_held H r = rw P.inserts (
      ground (
        arith,
        Y.on_insert st service domain a (resolve_ttl s ttl),
        H.insert_answers st service domain a (resolve_ttl s ttl),
      ))

  -- A free lock is acquired by `KeepAlive`, where every request is answered.
  pub keep_alive_free :
      IsHealthy S s.full_table_name
      → row st service domain ≡ none
      → let (lease, st') = execute S (keep_alive format_int s service domain a ttl) st in
        (lease ≡ seconds (resolve_ttl s ttl)) × (client_of (row st' service domain) ≡ some a)
  unfolding keep_alive
  keep_alive_free H = rw P.inserts (
      ground (
        arith,
        Y.on_insert st service domain a (resolve_ttl s ttl),
        H.insert_answers st service domain a (resolve_ttl s ttl),
      ))

  -- The row of a held lock stays as it was also where requests fail.
  pub keep_alive_keeps_row :
      (r : Row)
      → row st service domain ≡ some r
      → row (execute S (keep_alive format_int s service domain a ttl) st).1 service domain ≡ some r
  unfolding keep_alive
  keep_alive_keeps_row r =
      rw P.inserts (ground (arith, Y.on_insert st service domain a (resolve_ttl s ttl)))
