-- ===== src/Redis.antt =====
-- internal/store/redis/redis_store.go. A method is a program over the Redis client's requests; the
-- receiver's fields that a method reads are those of `Store`.
pub mod Config
pub mod Server
pub mod Expiry
pub mod Leases
pub mod Safety
pub mod Refinement
pub mod Races
pub mod Keys
pub mod Setup
pub mod History
pub mod Mock
pub mod MockClient
pub mod Memory
pub mod Clocked
mod Tests
use quorum_quest.Prelude.{
  ℕ, ℤ, is_positive, Bool, true, false, String, str_eq, ◌<>◌, Option, none, some, if◌then◌else◌,
}
use quorum_quest.Program.{
  Level, error, Result, ok, err, Program, done, call, log, ◌>>=◌, ◌>>◌, request, logs,
}
use quorum_quest.Lease.{seconds, no_lease}
use Config.{validate}

-- The requests of the `redisClient` interface, and `newRedisClientFn` (address, password, number of
-- the database).
pub data Request : Type 0 where
  set_nx : String → String → ℤ → Request
  get : String → Request
  del : String → Request
  expire : String → ℤ → Request
  ping : Request
  close : Request
  new_client : String → String → ℤ → Request

-- `redis.Nil`, which a client returns for a key that is not there, and any other error.
pub data Error : Type 0 where
  nil : Error
  other : String → Error

-- `%v` of an error.
abbrev error_text : Error → String
error_text nil = "redis: nil"
error_text (other m) = m

abbrev pub Reply : Request → Type 0
Reply (set_nx k v d) = Result Error Bool
Reply (get k) = Result Error String
Reply (del k) = Result Error ℕ
Reply (expire k d) = Result Error Bool
Reply ping = Result Error String
Reply close = Result Error (Unit {0})
Reply (new_client a p n) = Unit {0}

abbrev pub Handler : Type 0 → Type 0
Handler = Program Request Reply

pub record Store : Type 0 where
  pub ttl : ℤ
  pub key_prefix : String
  pub config : Config.Config

-- `fmt.Sprintf("%s:%s:%s", …)`
unfoldable pub lock_key : Store → String → String → String
lock_key s service domain = s.key_prefix <> ":" <> service <> ":" <> domain

unfoldable pub resolve_ttl : Store → ℤ → ℤ
resolve_ttl s ttl = if is_positive ttl then ttl else s.ttl

-- `GetConfig`
abbrev pub get_config : Store → Config.Config
get_config s = s.config

-- Logs every error but `redis.Nil`.
abbrev log_unless_nil : String → Error → Handler (Unit {0})
log_unless_nil message nil = done tt
log_unless_nil message (other m) = logs error (message <> m)

unfoldable pub refresh_lock_if_owned : String → String → ℤ → Handler Bool
refresh_lock_if_owned key client_id ttl = do
  existing_owner ← request (get key)
  elim existing_owner [
    | err e ↦ log_unless_nil "Error checking lock ownership: " e >> done false
    | ok owner ↦ if str_eq owner client_id then refresh else done false
  ]
  where
    refresh : Handler Bool
    refresh = do
      reply ← request (expire key (seconds ttl))
      elim reply [
        | err e ↦ logs error ("Error refreshing lock TTL: " <> error_text e) >> done false
        | ok b ↦ done true
      ]

unfoldable pub try_acquire_lock : Store → String → String → String → ℤ → Handler Bool
unfolding refresh_lock_if_owned lock_key resolve_ttl
try_acquire_lock s service domain client_id ttl = do
  let key = lock_key s service domain
  let lock_ttl = resolve_ttl s ttl
  success ← request (set_nx key client_id (seconds lock_ttl))
  elim success [
    | err e ↦ logs error ("Error acquiring lock: " <> error_text e) >> done false
    | ok true ↦ done true
    | ok false ↦ refresh_lock_if_owned key client_id lock_ttl
  ]

delete_owned : String → Handler (Unit {0})
delete_owned key = do
  reply ← request (del key)
  elim reply [ err e ↦ logs error ("Error releasing lock: " <> error_text e) | ok n ↦ done tt ]

unfoldable pub release_lock : Store → String → String → String → Handler (Unit {0})
unfolding lock_key delete_owned
release_lock s service domain client_id = do
  let key = lock_key s service domain
  existing_owner ← request (get key)
  elim existing_owner [
    | err e ↦ log_unless_nil "Error checking lock ownership: " e
    | ok owner ↦ if str_eq owner client_id then delete_owned key else done tt
  ]

extend_owned : String → ℤ → Handler ℤ
extend_owned key lock_ttl = do
  reply ← request (expire key (seconds lock_ttl))
  elim reply [
    | err e ↦ logs error ("Error refreshing lock TTL: " <> error_text e) >> done no_lease
    | ok false ↦ logs error "Failed to refresh lock TTL: key no longer exists" >> done no_lease
    | ok true ↦ done (seconds lock_ttl)
  ]

unfoldable pub keep_alive : Store → String → String → String → ℤ → Handler ℤ
unfolding lock_key resolve_ttl extend_owned
keep_alive s service domain client_id ttl = do
  let key = lock_key s service domain
  let lock_ttl = resolve_ttl s ttl
  existing_owner ← request (get key)
  elim existing_owner [
    | err e ↦ log_unless_nil "Error checking lock for keep-alive: " e >> done no_lease
    | ok owner ↦ if str_eq owner client_id then extend_owned key lock_ttl else done no_lease
  ]

-- `Close`
unfoldable pub close_store : Handler (Unit {0})
close_store = do
  reply ← request close
  elim reply [
    | err e ↦ logs error ("Error closing Redis connection: " <> error_text e)
    | ok n ↦ done tt
  ]

pub data NewError : Type 0 where
  config_option_missing : NewError
  connection_failed : Error → NewError

-- `New`. `format_int` is `%d`.
unfoldable pub new : (ℤ → String) → Option Config.Config → Handler (Result NewError Store)
new format_int none = done (err config_option_missing)
new format_int (some given) = do
  let config = validate given
  _ ← request (new_client (config.host <> ":" <> format_int config.port) config.password config.db)
  pong ← request ping
  elim pong [
    | err e ↦
        logs error ("Error connecting to Redis: " <> error_text e)
        >> done (err (connection_failed e))
    | ok m ↦
        done (ok (record { ttl = config.ttl; key_prefix = config.key_prefix; config = config }))
  ]
