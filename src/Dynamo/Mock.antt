-- ===== src/Dynamo/Mock.antt =====
-- internal/store/dynamodb/mock_dynamodb.go: the store that the tests run, over a mocked client, and what
-- of it stands for the store of dynamodb_store.go.
use quorum_quest.Prelude.{
  ℕ, ℤ, pos, plus, ltb_ℤ, is_positive, Bool, true, false, String, str_eq, ◌<>◌, Option, none, some,
  [], ◌∷◌, ◌≡◌, arith, if◌then◌else◌,
}
use quorum_quest.Program.{
  debug, error, Result, ok, err, Server, done, ◌>>=◌, ◌>>◌, request, logs, execute, call_ext,
}
use quorum_quest.Lease.{seconds, no_lease}
use quorum_quest.Dynamo.{
  Attribute, text, number, Item, Condition, attribute_not_exists, less, equal, either, Reply,
  Request, put_item, get_item, delete_item, update_item, describe_table, create_table,
  wait_for_table, Error, error_text, Handler, lock_item, may_take, NewError, create_failed,
  wait_failed,
}
use quorum_quest.Dynamo
use quorum_quest.Dynamo.Config.{Config}
use quorum_quest.Dynamo.Server.{IsDynamo, IsHealthy}
use quorum_quest.Dynamo.Leases.{Holds, lock_item_pk, may_take_held}

-- `waiting` says that `waiter` is not nil.
pub record MockStore : Type 0 where
  pub table_name : String
  pub ttl : ℤ
  pub config : Config
  pub waiting : Bool

unfoldable pub lock_key : String → String → String
lock_key service domain = service <> ":" <> domain

resolve_ttl : MockStore → ℤ → ℤ
resolve_ttl s ttl = if is_positive ttl then ttl else s.ttl

-- The condition of `TryAcquireLock`: no lock, or an expired one.
abbrev pub may_take_expired : ℕ → Condition
may_take_expired now = either (attribute_not_exists "PK") (less "ExpiresAt" (number (pos now)))

unfoldable pub try_acquire_lock : MockStore → ℕ → String → String → String → ℤ → Handler Bool
unfolding lock_key resolve_ttl
try_acquire_lock s now service domain client_id ttl = do
  let pk = lock_key service domain
  let expiry_time = plus now (resolve_ttl s ttl)
  reply ←
      request (put_item s.table_name (lock_item pk client_id expiry_time) (may_take_expired now))
  elim reply [ ok u ↦ done true | err e ↦ done false ]

-- `ownsLock`; `none` is the nil map.
unfoldable pub owns_lock : Option Item → String → Bool
owns_lock none client_id = false
owns_lock (some item) client_id = elim (item "ClientID") [
  | none ↦ false
  | some a ↦ elim a [ text owner ↦ str_eq owner client_id | _ ↦ false ]
]

unfoldable pub get_lock_item : MockStore → String → Handler (Result Error (Option Item))
get_lock_item s pk = request (get_item s.table_name pk)

-- How a method ends: it returns, or its assertion on an attribute's type panics.
pub data Ending : Type 0 where
  returned panicked : Ending

delete_lock : MockStore → String → Handler Ending
delete_lock s pk = do
  reply ← request (delete_item s.table_name pk)
  elim reply [
    | ok u ↦ done returned
    | err e ↦ logs error ("Error releasing lock: " <> error_text e) >> done returned
  ]

delete_item_of : MockStore → String → String → Option Attribute → Handler Ending
unfolding delete_lock
delete_item_of s pk client_id none = done returned
delete_item_of s pk client_id (some (text owner)) =
    if str_eq owner client_id then delete_lock s pk else done returned
delete_item_of s pk client_id (some _) = done panicked

unfoldable pub release_lock : MockStore → String → String → String → Handler Ending
unfolding lock_key delete_item_of
release_lock s service domain client_id = do
  let pk = lock_key service domain
  reply ← request (get_item s.table_name pk)
  elim reply [
    | err e ↦ logs error ("Error checking lock ownership: " <> error_text e) >> done returned
    | ok none ↦ done returned
    | ok (some item) ↦ delete_item_of s pk client_id (item "ClientID")
  ]

unfoldable pub keep_alive : MockStore → ℕ → String → String → String → ℤ → Handler ℤ
unfolding lock_key resolve_ttl
keep_alive s now service domain client_id ttl = do
  let pk = lock_key service domain
  let expiry_time = plus now (resolve_ttl s ttl)
  reply ← request (
      update_item s.table_name pk "ExpiresAt" (number expiry_time)
        (equal "ClientID" (text client_id)))
  elim reply [
    | err e ↦ logs debug ("Failed to keep lock alive: " <> error_text e) >> done no_lease
    | ok u ↦ done (seconds (resolve_ttl s ttl))
  ]

wait_for_table_active : MockStore → Handler (Option NewError)
wait_for_table_active s = do
  reply ← request (wait_for_table s.table_name (seconds (pos 300)))
  elim reply [
    | ok u ↦ done none
    | err e ↦
        logs error ("Failed to wait for table creation: " <> error_text e)
        >> done (some (wait_failed e))
  ]

create_missing_table : MockStore → Handler (Option NewError)
unfolding wait_for_table_active
create_missing_table s = do
  reply ← request (create_table s.table_name)
  elim reply [
    | err e ↦
        logs error ("Failed to create table: " <> error_text e) >> done (some (create_failed e))
    | ok u ↦ if s.waiting then wait_for_table_active s else done none
  ]

unfoldable pub ensure_table_exists : MockStore → Handler (Option NewError)
unfolding create_missing_table
ensure_table_exists s = do
  described ← request (describe_table s.table_name)
  elim described [ ok u ↦ done none | err e ↦ create_missing_table s ]

-- `Close`
unfoldable pub close_store : Handler (Unit {0})
close_store = done tt

abbrev test_config : Config
test_config = record {
  region = "us-east-1";
  table = "test_table";
  ttl = pos 15;
  endpoints = "http://localhost:8000" ∷ [];
  profile = "";
  access_key_id = "dummy";
  secret_access_key = "dummy";
}

-- `SetupMockStore`
unfoldable pub setup_mock_store : MockStore
setup_mock_store = record {
  table_name = test_config.table;
  ttl = test_config.ttl;
  config = test_config;
  waiting = true;
}

-- The store with the mocked store's table and TTL.
abbrev pub real : MockStore → Dynamo.Store
real s = record { table_name = s.table_name; ttl = s.ttl; config = s.config }

keep_alive-agrees :
    (s : MockStore) (now : ℕ) (service domain a : String) (ttl : ℤ)
    → keep_alive s now service domain a ttl ≡ Dynamo.keep_alive (real s) now service domain a ttl
unfolding keep_alive Dynamo.keep_alive Dynamo.resolve_ttl resolve_ttl
keep_alive-agrees s now service domain a ttl = call_ext λ reply. ground arith

-- With a waiter, the mocked store looks for the table, makes it and waits as the store does.
ensure_table_exists-agrees :
    (s : MockStore) → s.waiting ≡ true → ensure_table_exists s ≡ Dynamo.ensure_table_exists (real s)
unfolding ensure_table_exists Dynamo.ensure_table_exists
ensure_table_exists-agrees s h = call_ext λ described. ground arith

module _ (S : Server Request Reply) (item : S.State → String → String → Option Item)
    (meets : Condition → Option Item → Bool) (D : IsDynamo S item meets) (H : IsHealthy S)
    (s : MockStore) (now : ℕ) (service domain a : String) (ttl : ℤ) (st : S.State) (expiry : ℤ)
    (h : Holds (item st s.table_name (lock_key service domain)) a expiry)
    (valid : ltb_ℤ expiry (pos now) ≡ false) where
  abbrev pk : String
  pk = lock_key service domain

  abbrev put : Item
  put = lock_item pk a (plus now (resolve_ttl s ttl))

  refused :
      ((execute S (try_acquire_lock s now service domain a ttl) st).0 ≡ false)
      × (item
            (execute S (try_acquire_lock s now service domain a ttl) st).1
            s.table_name
            (lock_key service domain)
          ≡ item st s.table_name (lock_key service domain))
  unfolding try_acquire_lock
  refused = ground (
    arith,
    D.on_put st s.table_name pk put (may_take_expired now)
        (lock_item_pk pk a (plus now (resolve_ttl s ttl))),
    H.put_answers st s.table_name put (may_take_expired now),
    D.meaning.on_either (attribute_not_exists "PK") (less "ExpiresAt" (number (pos now)))
        (item st s.table_name pk),
    D.meaning.on_not_exists "PK" (item st s.table_name pk),
    D.meaning.on_less "ExpiresAt" (number (pos now)) (item st s.table_name pk),
    h.keyed,
    h.until,
  )

  granted : (execute S (Dynamo.try_acquire_lock (real s) now service domain a ttl) st).0 ≡ true
  unfolding Dynamo.try_acquire_lock Dynamo.resolve_ttl Dynamo.lock_key lock_key resolve_ttl
  granted = ground (
    arith,
    D.on_put st s.table_name pk put (may_take a now)
        (lock_item_pk pk a (plus now (resolve_ttl s ttl))),
    H.put_answers st s.table_name put (may_take a now),
    may_take_held meets D.meaning (item st s.table_name pk) a a expiry now h,
  )

  -- Where every request is answered and the holder of a lock that has not run out acquires it
  -- again, the mocked store refuses and leaves the item as it is, and the store grants it. Their
  -- keep-alives are the same program.
  pub mock_store_refuses_holder :
      ((execute S (try_acquire_lock s now service domain a ttl) st).0 ≡ false)
      × (item
            (execute S (try_acquire_lock s now service domain a ttl) st).1
            s.table_name
            (lock_key service domain)
          ≡ item st s.table_name (lock_key service domain))
      × ((execute S (Dynamo.try_acquire_lock (real s) now service domain a ttl) st).0 ≡ true)
      × (keep_alive s now service domain a ttl
          ≡ Dynamo.keep_alive (real s) now service domain a ttl)
  mock_store_refuses_holder =
      (refused.0, refused.1, granted, keep_alive-agrees s now service domain a ttl)
