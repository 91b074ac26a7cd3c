-- ===== src/Dynamo/Refinement.antt =====
-- The lock calls of internal/store/dynamodb/dynamodb_store.go implement the contract of Lease.antt for
-- locks that run out, where every request is answered and reads are up to date.
use quorum_quest.Prelude.{
  ℕ, ℤ, plus, Bool, false, false≢true, sym, String, text_ne, refl, Option, none, some, ◌≡◌, arith,
}
use quorum_quest.Program.{Server, execute}
use quorum_quest.Lease.{Timed, take_timed, drop_timed, extend_timed}
use quorum_quest.Dynamo.{
  text, number, Item, Condition, may_take, lock_item, equal, Request, Reply, Store, lock_key,
  get_item, resolve_ttl, owns_lock, try_acquire_lock, release_lock, keep_alive,
}
use quorum_quest.Dynamo.Server.{IsDynamo, IsFresh, IsHealthy, updated}
use quorum_quest.Dynamo.Leases.{
  Holds, lock_item_pk, lock_item-Holds, may_take_held, may_take_free, equal_held, equal_free,
  owns_lock_held,
}

-- What the table's item says of a lock.
abbrev pub Stands : Option Item → Timed → Type 0
Stands i none = i ≡ none
Stands i (some (client, expiry)) = Holds i client expiry

updated-Holds :
    (i : Option Item) (client : String) (expiry later : ℤ)
    → Holds i client expiry
    → Holds (updated "ExpiresAt" (number later) i) client later
updated-Holds none client expiry later h = absurd (false≢true (sym h.keyed))
updated-Holds (some i) client expiry later h =
    ground (arith, text_ne "PK" "ExpiresAt" refl, text_ne "ClientID" "ExpiresAt" refl)

owns_lock_free : (client : String) → owns_lock none client ≡ false
unfolding owns_lock
owns_lock_free client = refl

module _ (S : Server Request Reply) (item : S.State → String → String → Option Item)
    (meets : Condition → Option Item → Bool) (D : IsDynamo S item meets) (F : IsFresh S item)
    (H : IsHealthy S) (s : Store) (now : ℕ) (service domain a : String) (ttl : ℤ)
    (st : S.State) where
  abbrev pk : String
  pk = lock_key service domain

  abbrev expiry_time : ℤ
  expiry_time = plus now (resolve_ttl s ttl)

  abbrev before : Option Item
  before = item st s.table_name pk

  try_acquire_lock-refines :
      (lock : Timed)
      → Stands (item st s.table_name (lock_key service domain)) lock
      → let (r, st') = execute S (try_acquire_lock s now service domain a ttl) st in
        (r ≡ (take_timed now a (resolve_ttl s ttl) lock).0)
        × Stands
            (item st' s.table_name (lock_key service domain))
            (take_timed now a (resolve_ttl s ttl) lock).1
  unfolding try_acquire_lock
  try_acquire_lock-refines none h = ground (
    arith,
    D.on_put st s.table_name pk (lock_item pk a expiry_time) (may_take a now)
        (lock_item_pk pk a expiry_time),
    H.put_answers st s.table_name (lock_item pk a expiry_time) (may_take a now),
    may_take_free meets D.meaning a now,
    lock_item-Holds pk a expiry_time,
  )
  try_acquire_lock-refines (some (holder, expiry)) h = ground (
    arith,
    D.on_put st s.table_name pk (lock_item pk a expiry_time) (may_take a now)
        (lock_item_pk pk a expiry_time),
    H.put_answers st s.table_name (lock_item pk a expiry_time) (may_take a now),
    may_take_held meets D.meaning before holder a expiry now h,
    lock_item-Holds pk a expiry_time,
  )

  release_lock-refines :
      (lock : Timed)
      → Stands (item st s.table_name (lock_key service domain)) lock
      → Stands
          (item
            (execute S (release_lock s service domain a) st).1
            s.table_name
            (lock_key service domain))
          (drop_timed a lock)
  unfolding release_lock
  release_lock-refines none h = ground (
    arith,
    F.on_get st s.table_name pk,
    D.get_frame st s.table_name pk s.table_name pk,
    owns_lock_free a,
  )
  release_lock-refines (some (holder, expiry)) h =
      let st' = (S.handle (get_item s.table_name pk) st).1 in
      ground (
        arith,
        F.on_get st s.table_name pk,
        D.get_frame st s.table_name pk s.table_name pk,
        H.get_answers st s.table_name pk,
        H.delete_answers st' s.table_name pk,
        D.on_delete st' s.table_name pk,
        owns_lock_held before holder a expiry h,
      )

  keep_alive-refines :
      (lock : Timed)
      → Stands (item st s.table_name (lock_key service domain)) lock
      → let (r, st') = execute S (keep_alive s now service domain a ttl) st in
        (r ≡ (extend_timed now a (resolve_ttl s ttl) lock).0)
        × Stands
            (item st' s.table_name (lock_key service domain))
            (extend_timed now a (resolve_ttl s ttl) lock).1
  unfolding keep_alive
  keep_alive-refines none h = ground (
    arith,
    D.on_update st s.table_name pk "ExpiresAt" (number expiry_time) (equal "ClientID" (text a))
        (equal_free meets D.meaning a),
    equal_free meets D.meaning a,
  )
  keep_alive-refines (some (holder, expiry)) h = ground (
    arith,
    D.on_update st s.table_name pk "ExpiresAt" (number expiry_time) (equal "ClientID" (text a))
        (equal_free meets D.meaning a),
    H.update_answers st s.table_name pk "ExpiresAt" (number expiry_time)
        (equal "ClientID" (text a)),
    equal_held meets D.meaning before holder a expiry h,
    updated-Holds before holder expiry expiry_time h,
  )

  -- Where every request is answered and reads are up to date, the three lock calls answer as the
  -- contract for timed locks says, and the item that they leave stands for the lock that it says. By
  -- that contract, as by the condition in `KeepAlive`, a keep-alive of the client that the item names
  -- renews the lock also when its time is over; the tests `keep_alive_with_expired_lock` and
  -- `expired_item_behavior` say that it is refused.
  pub timed_calls_refine :
      (lock : Timed)
      → Stands (item st s.table_name (lock_key service domain)) lock
      → (let (r, st') = execute S (try_acquire_lock s now service domain a ttl) st in
          (r ≡ (take_timed now a (resolve_ttl s ttl) lock).0)
          × Stands
              (item st' s.table_name (lock_key service domain))
              (take_timed now a (resolve_ttl s ttl) lock).1)
        × Stands
            (item
              (execute S (release_lock s service domain a) st).1
              s.table_name
              (lock_key service domain))
            (drop_timed a lock)
        × (let (r, st') = execute S (keep_alive s now service domain a ttl) st in
            (r ≡ (extend_timed now a (resolve_ttl s ttl) lock).0)
            × Stands
                (item st' s.table_name (lock_key service domain))
                (extend_timed now a (resolve_ttl s ttl) lock).1)
  timed_calls_refine lock h =
      (try_acquire_lock-refines lock h, release_lock-refines lock h, keep_alive-refines lock h)
