-- ===== src/Dynamo/Races.antt =====
-- `ReleaseLock` of internal/store/dynamodb/dynamodb_store.go reads the item and deletes it in two
-- requests. `advance` stops the call behind the first.
use quorum_quest.Prelude.{Bool, ℤ, String, Option, none, ◌≡◌, arith}
use quorum_quest.Program.{Server, execute, advance}
use quorum_quest.Dynamo.{Condition, Item, Request, Reply, Store, lock_key, release_lock}
use quorum_quest.Dynamo.Server.{IsDynamo, IsFresh, IsHealthy}
use quorum_quest.Dynamo.Leases.{Holds, owns_lock_held}

-- The deletion carries no condition: if the caller held the lock at the read and a client `b` holds it
-- at the deletion, the lock of `b` is deleted, where every request is answered and reads are up to
-- date.
pub release_lock_deletes_successor :
    (S : Server Request Reply) (item : S.State → String → String → Option Item)
    (meets : Condition → Option Item → Bool)
    → IsDynamo S item meets
    → IsFresh S item
    → IsHealthy S
    → (s : Store) (service domain a b : String) (st later : S.State) (expiry until : ℤ)
    → Holds (item st s.table_name (lock_key service domain)) a expiry
    → Holds (item later s.table_name (lock_key service domain)) b until
    → let (rest, _) = advance S (release_lock s service domain a) st in
      item (execute S rest later).1 s.table_name (lock_key service domain) ≡ none
unfolding release_lock
release_lock_deletes_successor S item meets D F H s service domain a b st later expiry until held
      lost =
    let pk = lock_key service domain in
    ground (
      arith,
      F.on_get st s.table_name pk,
      H.get_answers st s.table_name pk,
      H.delete_answers later s.table_name pk,
      D.on_delete later s.table_name pk,
      owns_lock_held (item st s.table_name pk) a a expiry held,
    )
