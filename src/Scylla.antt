-- ===== src/Scylla.antt =====
-- internal/store/scylladb/scylladb_store.go. A method is a program over the session's requests: a
-- statement's text with its values.
pub mod Config
pub mod Server
pub mod Safety
pub mod KeepAlive
pub mod Races
pub mod Setup
pub mod History
pub mod Mock
pub mod MockClient
pub mod Memory
mod Tests
use quorum_quest.Prelude.{
  ℤ, is_positive, Bool, true, false, String, str_eq, ◌<>◌, Option, none, some, List, [], ◌∷◌,
  if◌then◌else◌,
}
use quorum_quest.Program.{
  Level, info, error, Result, ok, err, Program, done, call, log, ◌>>=◌, ◌>>◌, request, logs,
}
use quorum_quest.Lease.{seconds, no_lease}

pub data Value : Type 0 where
  text : String → Value
  number : ℤ → Value

pub data Consistency : Type 0 where
  one quorum all : Consistency

-- `Query(text, values…).Exec()`, `Query(text, values…).Scan(&column)`, and the session's life.
pub data Request : Type 0 where
  exec : String → List Value → Request
  scan : String → List Value → Request
  create_session : String → Consistency → Request
  close : Request

-- `gocql.ErrNotFound` and any other error.
pub data Error : Type 0 where
  not_found : Error
  other : String → Error

abbrev error_text : Error → String
error_text not_found = "not found"
error_text (other m) = m

abbrev pub Reply : Request → Type 0
Reply (exec q vs) = Result Error (Unit {0})
Reply (scan q vs) = Result Error String
Reply (create_session a c) = Result Error (Unit {0})
Reply close = Unit {0}

abbrev pub Handler : Type 0 → Type 0
Handler = Program Request Reply

pub record Store : Type 0 where
  pub session : Bool  -- whether `session` is not nil
  pub table_name : String
  pub keyspace_name : String
  pub full_table_name : String
  pub ttl : ℤ
  pub config : Config.Config
  pub try_acquire_lock_query : String
  pub validate_lock_query : String
  pub release_lock_query : String

unfoldable pub parse_consistency : String → Consistency
parse_consistency c =
    if str_eq c "CONSISTENCY_QUORUM"
    then quorum
    else if str_eq c "CONSISTENCY_ONE"
    then one
    else if str_eq c "CONSISTENCY_ALL"
    then all
    else quorum

unfoldable pub resolve_ttl : Store → ℤ → ℤ
resolve_ttl s ttl = if is_positive ttl then ttl else s.ttl

unfoldable pub prepare_queries : Store → Store
prepare_queries s = record s {
  try_acquire_lock_query =
      "INSERT INTO " <> s.full_table_name
      <> " (service, domain, client_id) VALUES (?, ?, ?) IF NOT EXISTS USING TTL ?";
  validate_lock_query =
      "SELECT client_id FROM " <> s.full_table_name
      <> " WHERE service = ? AND domain = ? AND client_id = ? ALLOW FILTERING";
  release_lock_query = "DELETE FROM " <> s.full_table_name <> " WHERE service = ? AND domain = ?";
}

unfoldable pub verify_lock_ownership : Store → String → String → String → Handler Bool
verify_lock_ownership s service domain client_id = do
  stored_client_id ←
      request (scan s.validate_lock_query (text service ∷ text domain ∷ text client_id ∷ []))
  elim stored_client_id [
    | err e ↦ logs error ("Error validating lock: " <> error_text e) >> done false
    | ok c ↦ done (str_eq c client_id)
  ]

-- The statement that `TryAcquireLock` and `KeepAlive` run.
abbrev insert_lock : Store → String → String → String → ℤ → Request
insert_lock s service domain client_id lock_ttl =
    exec s.try_acquire_lock_query
      (text service ∷ text domain ∷ text client_id ∷ number lock_ttl ∷ [])

unfoldable pub try_acquire_lock : Store → String → String → String → ℤ → Handler Bool
unfolding resolve_ttl verify_lock_ownership
try_acquire_lock s service domain client_id ttl = do
  let lock_ttl = resolve_ttl s ttl
  reply ← request (insert_lock s service domain client_id lock_ttl)
  elim reply [
    | err e ↦ logs error ("Error acquiring lock: " <> error_text e) >> done false
    | ok u ↦ verify_lock_ownership s service domain client_id
  ]

unfoldable pub delete_lock : Store → String → String → Handler (Unit {0})
delete_lock s service domain = do
  reply ← request (exec s.release_lock_query (text service ∷ text domain ∷ []))
  elim reply [ err e ↦ logs error ("Error releasing lock: " <> error_text e) | ok u ↦ done tt ]

unfoldable pub release_lock : Store → String → String → String → Handler (Unit {0})
unfolding verify_lock_ownership delete_lock
release_lock s service domain client_id = do
  owned ← verify_lock_ownership s service domain client_id
  if owned then delete_lock s service domain else done tt

-- `format_int` is `%d`.
unfoldable pub keep_alive : (ℤ → String) → Store → String → String → String → ℤ → Handler ℤ
unfolding resolve_ttl
keep_alive format_int s service domain client_id ttl = do
  let lock_ttl = resolve_ttl s ttl
  logs info (
      "Attempting KeepAlive for service=" <> service <> ", domain=" <> domain <> ", client_id="
      <> client_id)
  reply ← request (insert_lock s service domain client_id lock_ttl)
  elim reply [
    | err e ↦ logs error ("Error from KeepAlive operation: " <> error_text e) >> done no_lease
    | ok u ↦
        logs info ("Lock refreshed with TTL=" <> format_int lock_ttl) >> done (seconds lock_ttl)
  ]

-- `Close`
unfoldable pub close_store : Store → Handler (Unit {0})
close_store s = if s.session then request close else done tt

unfoldable pub ensure_keyspace_exists : Store → Handler (Unit {0})
ensure_keyspace_exists s = do
  reply ← request (
      exec
        ("CREATE KEYSPACE IF NOT EXISTS " <> s.keyspace_name
          <> " WITH replication = {'class':'SimpleStrategy','replication_factor':3};")
        [])
  elim reply [ err e ↦ logs error ("Error creating keyspace: " <> error_text e) | ok u ↦ done tt ]

create_index : Store → Handler (Unit {0})
create_index s = do
  reply ← request (
      exec
        ("CREATE INDEX IF NOT EXISTS ON " <> s.keyspace_name <> "." <> s.table_name
          <> " (client_id);")
        [])
  elim reply [ err e ↦ logs error ("Failed to create index: " <> error_text e) | ok u ↦ done tt ]

unfoldable pub ensure_table_exists : (ℤ → String) → Store → Handler (Unit {0})
unfolding create_index
ensure_table_exists format_int s = do
  reply ← request (
      exec
        ("CREATE TABLE IF NOT EXISTS "
          <> s.keyspace_name
          <> "."
          <> s.table_name
          <> " (service text, domain text, client_id text, PRIMARY KEY (service, domain)) WITH default_time_to_live = "
          <> format_int s.ttl
          <> ";")
        [])
  elim reply [ err e ↦ logs error ("Failed to create table: " <> error_text e) | ok u ↦ done tt ]
  create_index s

unfoldable pub init_session : (ℤ → String) → Store → Handler Store
unfolding ensure_keyspace_exists ensure_table_exists prepare_queries
init_session format_int s = do
  ensure_keyspace_exists s
  ensure_table_exists format_int s
  done (prepare_queries s)

pub data NewError : Type 0 where
  config_option_missing multiple_endpoints_unsupported : NewError
  session_failed : Error → NewError

abbrev is_many {ℓ} : {A : Type ℓ} → List A → Bool
is_many (x ∷ y ∷ zs) = true
is_many _ = false

-- The store as `New` builds it, before `initSession`.
unfoldable pub fresh_store : Config.Config → Store
fresh_store config = record {
  session = true;
  table_name = config.table;
  keyspace_name = config.keyspace;
  full_table_name = "\"" <> config.keyspace <> "\".\"" <> config.table <> "\"";
  ttl = config.ttl;
  config = config;
  try_acquire_lock_query = "";
  validate_lock_query = "";
  release_lock_query = "";
}

open_store : (ℤ → String) → Config.Config → Handler (Result NewError Store)
unfolding parse_consistency fresh_store init_session
open_store format_int config = do
  session ← request (
      create_session (config.host <> ":" <> format_int config.port)
        (parse_consistency config.consistency))
  elim session [
    | err e ↦
        logs error ("Error creating session: " <> error_text e) >> done (err (session_failed e))
    | ok u ↦ do store ← init_session format_int (fresh_store config); done (ok store)
  ]

-- `New`
unfoldable pub new : (ℤ → String) → Option Config.Config → Handler (Result NewError Store)
unfolding open_store
new format_int none = done (err config_option_missing)
new format_int (some config) =
    if is_many config.endpoints
    then done (err multiple_endpoints_unsupported)
    else open_store format_int config
