-- ===== src/Scylla/Mock.antt =====
-- internal/store/scylladb/mock_scylladb.go: the store that the tests run, over a mocked session, and what
-- of it stands for the store of scylladb_store.go.
use quorum_quest.Prelude.{
  refl, pos, ℤ, is_negative, Bool, true, false, String, str_eq, ◌<>◌, List, [], ◌∷◌, Option, ◌≡◌,
  arith, if◌then◌else◌,
}
use quorum_quest.Program.{info, error, Server, ok, err, done, ◌>>=◌, ◌>>◌, request, logs, execute}
use quorum_quest.Lease.{seconds, no_lease, unless_zero, unless_zero_lem}
use quorum_quest.Scylla.{
  Value, text, number, Request, exec, scan, close, Error, not_found, other, error_text, Reply,
  Handler, Store, resolve_ttl,
}
use quorum_quest.Scylla
use quorum_quest.Scylla.Config.{Config}
use quorum_quest.Scylla.Server.{
  Row, insert_text, select_text, delete_text, IsPrepared, insert, select, IsScylla,
}

-- `MockStore` has the fields of `Store`.
abbrev pub MockStore : Type 0
MockStore = Store

abbrev pub mock_select_text : String → String
mock_select_text t =
    "SELECT client_id FROM " <> t
    <> " WHERE service =? and domain = ? and client_id =? ALLOW FILTERING"

abbrev pub mock_delete_text : String → String
mock_delete_text t = "DELETE FROM " <> t <> " WHERE service =? and domain =?"

-- `initSession`
unfoldable pub init_session : MockStore → MockStore
init_session s = record s {
  try_acquire_lock_query =
      "INSERT INTO " <> s.full_table_name
      <> " (service, domain, client_id) VALUES (?, ?, ?) IF NOT EXISTS USING TTL ?";
  validate_lock_query = mock_select_text s.full_table_name;
  release_lock_query = mock_delete_text s.full_table_name;
}

abbrev insert_lock : MockStore → String → String → String → ℤ → Request
insert_lock s service domain client_id lock_ttl =
    exec s.try_acquire_lock_query
      (text service ∷ text domain ∷ text client_id ∷ number lock_ttl ∷ [])

abbrev validate_lock : MockStore → String → String → String → Request
validate_lock s service domain client_id =
    scan s.validate_lock_query (text service ∷ text domain ∷ text client_id ∷ [])

-- TryAcquireLock past the insertion. What is read is not compared.
read_back : MockStore → String → String → String → Handler Bool
read_back s service domain client_id = do
  value ← request (validate_lock s service domain client_id)
  elim value [
    | err e ↦ logs error ("Error validating lock: " <> error_text e) >> done false
    | ok c ↦ done true
  ]

unfoldable pub try_acquire_lock : MockStore → String → String → String → ℤ → Handler Bool
unfolding read_back
try_acquire_lock s service domain client_id ttl = do
  reply ← request (insert_lock s service domain client_id (unless_zero ttl s.ttl))
  elim reply [
    | err e ↦ logs error ("Error acquiring lock: " <> error_text e) >> done false
    | ok u ↦ read_back s service domain client_id
  ]

delete_lock : MockStore → String → String → Handler (Unit {0})
delete_lock s service domain = do
  reply ← request (exec s.release_lock_query (text service ∷ text domain ∷ []))
  elim reply [ err e ↦ logs error ("Error ReleaseLock " <> error_text e) | ok u ↦ done tt ]

unfoldable pub release_lock : MockStore → String → String → String → Handler (Unit {0})
unfolding delete_lock
release_lock s service domain client_id = do
  stored_client_id ← request (validate_lock s service domain client_id)
  elim stored_client_id [
    | ok c ↦ if str_eq c client_id then delete_lock s service domain else done tt
    | err not_found ↦ done tt
    | err (other m) ↦ logs error ("Error validating lock ownership before release: " <> m)
  ]

unfoldable pub keep_alive : (ℤ → String) → MockStore → String → String → String → ℤ → Handler ℤ
keep_alive format_int s service domain client_id ttl = do
  let lock_ttl = unless_zero ttl s.ttl
  logs info (
      "Attempting KeepAlive for service=" <> service <> ", domain=" <> domain <> ", client_id="
      <> client_id)
  reply ← request (insert_lock s service domain client_id lock_ttl)
  elim reply [
    | err e ↦ logs error ("Error from KeepAlive insert " <> error_text e) >> done no_lease
    | ok u ↦
        logs info ("Lock refreshed with TTL=" <> format_int lock_ttl) >> done (seconds lock_ttl)
  ]

unfoldable pub close_store : Handler (Unit {0})
close_store = request close

abbrev test_config : Config
test_config = record {
  host = "";
  port = pos 0;
  keyspace = "";
  table = "";
  ttl = pos 15;
  consistency = "";
  endpoints = [];
}

-- `SetupStoreWithMocks`
unfoldable pub setup_store_with_mocks : MockStore
setup_store_with_mocks = record {
  session = true;
  table_name = "test_table";
  keyspace_name = "test_keyspace";
  full_table_name = "\"test_keyspace\".\"test_table\"";
  ttl = pos 15;
  config = test_config;
  try_acquire_lock_query =
      "INSERT INTO \"test_keyspace\".\"test_table\" (service, domain, client_id) VALUES (?, ?, ?) IF NOT EXISTS USING TTL ?";
  validate_lock_query =
      "SELECT client_id FROM \"test_keyspace\".\"test_table\" WHERE service =? and domain = ? and client_id =? ALLOW FILTERING";
  release_lock_query =
      "DELETE FROM \"test_keyspace\".\"test_table\" WHERE service =? and domain =?";
}

-- The statements of the store that the tests set up are those that initSession writes.
setup_store_with_mocks-init_session : init_session setup_store_with_mocks ≡ setup_store_with_mocks
unfolding init_session setup_store_with_mocks
setup_store_with_mocks-init_session = refl

module _ (S : Server Request Reply) (row : S.State → String → String → Option Row) (s : Store)
    (P : IsPrepared s) (Y : IsScylla S s.full_table_name row)
    (handle : (r : Request) → S.State → Reply r × S.State)
    (inserts : (vs : List Value) (st : S.State)
      → handle (exec (insert_text s.full_table_name) vs) st
        ≡ S.handle (exec (insert_text s.full_table_name) vs) st)
    (selects : (vs : List Value) (st : S.State)
      → handle (scan (mock_select_text s.full_table_name) vs) st
        ≡ S.handle (scan (select_text s.full_table_name) vs) st)
    (deletes : (vs : List Value) (st : S.State)
      → handle (exec (mock_delete_text s.full_table_name) vs) st
        ≡ S.handle (exec (delete_text s.full_table_name) vs) st)
    (service domain a : String) (st : S.State) where
  -- A database that reads the mock's spelling of the statements as `S` reads the store's.
  abbrev spelled : Server Request Reply
  spelled = record { State = S.State; handle = handle }

  abbrev mock : MockStore
  mock = init_session s

  read_back_agrees :
      (t : S.State)
      → execute spelled (read_back mock service domain a) t
        ≡ execute S (Scylla.verify_lock_ownership s service domain a) t
  unfolding init_session read_back Scylla.verify_lock_ownership
  read_back_agrees t =
      let selecting = text service ∷ text domain ∷ text a ∷ [] in
      rw P.selects (ground (arith, selects selecting t, Y.on_select t service domain a))

  acquire_agrees :
      (ttl : ℤ)
      → is_negative ttl ≡ false
      → execute spelled (try_acquire_lock mock service domain a ttl) st
        ≡ execute S (Scylla.try_acquire_lock s service domain a ttl) st
  unfolding init_session try_acquire_lock Scylla.try_acquire_lock resolve_ttl
  acquire_agrees ttl h =
      let inserting = text service ∷ text domain ∷ text a ∷ number (resolve_ttl s ttl) ∷ [] in
      let st' = (S.handle (insert s.full_table_name service domain a (resolve_ttl s ttl)) st).1 in
      rw (P.inserts, unless_zero_lem ttl s.ttl h)
        (ground (arith, inserts inserting st, read_back_agrees st'))

  release_agrees :
      (execute spelled (release_lock mock service domain a) st).1
      ≡ (execute S (Scylla.release_lock s service domain a) st).1
  unfolding init_session release_lock Scylla.release_lock delete_lock Scylla.delete_lock
      Scylla.verify_lock_ownership
  release_agrees =
      let selecting = text service ∷ text domain ∷ text a ∷ [] in
      let deleting = text service ∷ text domain ∷ [] in
      let st' = (S.handle (select s.full_table_name service domain a) st).1 in
      rw (P.selects, P.deletes) (ground (arith, selects selecting st, deletes deleting st'))

  keep_alive_agrees :
      (format_int : ℤ → String) (ttl : ℤ)
      → is_negative ttl ≡ false
      → execute spelled (keep_alive format_int mock service domain a ttl) st
        ≡ execute S (Scylla.keep_alive format_int s service domain a ttl) st
  unfolding init_session keep_alive Scylla.keep_alive resolve_ttl
  keep_alive_agrees format_int ttl h =
      let inserting = text service ∷ text domain ∷ text a ∷ number (resolve_ttl s ttl) ∷ [] in
      rw (P.inserts, unless_zero_lem ttl s.ttl h) (ground (arith, inserts inserting st))

  -- For a TTL that is not negative the mocked store, whose statements are spelled otherwise, is the
  -- store, on a database that reads its statements as it reads the store's: each lock call answers
  -- the same and leaves the same database, whatever fails.
  pub mock_spelling_agrees :
      (format_int : ℤ → String) (ttl : ℤ)
      → is_negative ttl ≡ false
      → (execute spelled (try_acquire_lock mock service domain a ttl) st
          ≡ execute S (Scylla.try_acquire_lock s service domain a ttl) st)
        × ((execute spelled (release_lock mock service domain a) st).1
            ≡ (execute S (Scylla.release_lock s service domain a) st).1)
        × (execute spelled (keep_alive format_int mock service domain a ttl) st
            ≡ execute S (Scylla.keep_alive format_int s service domain a ttl) st)
  mock_spelling_agrees format_int ttl h =
      (acquire_agrees ttl h, release_agrees, keep_alive_agrees format_int ttl h)
