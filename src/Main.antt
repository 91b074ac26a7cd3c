-- ===== src/Main.antt =====
-- cmd/quorum-quest-service/main.go: the process of the service. What the packages of internal give it is
-- taken as their result: an error's text, or what they return.
pub mod Startup
pub mod Telemetry
pub mod Serving
pub mod Process
pub mod Shutdown
mod Tests
use quorum_quest.Prelude.{
  ℕ, ℤ, String, str_eq, ◌<>◌, Bool, true, false, Option, none, some, List, [], ◌∷◌, ◌++◌,
  if◌then◌else◌,
}
use quorum_quest.Program.{Result, ok, err, Program, done, call, log, ◌>>=◌, ◌>>◌, logs, info}
use quorum_quest.Config.Loading.{
  Backend, scylladb, dynamodb, redis, StoreConfig, GlobalConfig, Observability, global_default,
}
use quorum_quest.Redis
use quorum_quest.Redis.Config as RedisConfig
use quorum_quest.Dynamo
use quorum_quest.Scylla
use quorum_quest.Registry.Stores.{
  ConstructError, redis_options, dynamo_options, scylla_options, redis_new_store, scylla_new_store,
}
use quorum_quest.Service.{
  Service, LockStore, Given, Error, nil_config, nil_logger, nil_metrics, nil_initializer,
  new_server, stop,
}
use quorum_quest.Service.Stores.{redis_store, dynamo_store, scylla_store}

-- The flag -config: what the command line gives, or the default.
unfoldable pub config_path : Option String → String
config_path none = "./config"
config_path (some path) = path

-- The cases of the `switch`.
unfoldable pub select_backend : String → Option Backend
select_backend backend_type =
    if str_eq backend_type "scylladb"
    then some scylladb
    else if str_eq backend_type "dynamodb"
    then some dynamodb
    else if str_eq backend_type "redis"
    then some redis
    else none

abbrev name_of : Backend → String
name_of scylladb = "ScyllaDB"
name_of dynamodb = "DynamoDB"
name_of redis = "Redis"

abbrev pub Req : Backend → Type 0
Req scylladb = Scylla.Request
Req dynamodb = Dynamo.Request
Req redis = Redis.Request

abbrev pub Rep : (b : Backend) → Req b → Type 0
Rep scylladb = Scylla.Reply
Rep dynamodb = Dynamo.Reply
Rep redis = Redis.Reply

-- The loader of the Redis configuration, which main.go has itself; it validates nothing. `unmarshal`
-- reads YAML over a configuration.
unfoldable pub redis_loader :
    (String → GlobalConfig RedisConfig.Config → Result String (GlobalConfig RedisConfig.Config))
    → String
    → Result String (GlobalConfig RedisConfig.Config)
redis_loader unmarshal content =
    if str_eq content ""
    then ok (global_default "redis" RedisConfig.new_config)
    else elim (unmarshal content (global_default "redis" RedisConfig.new_config)) [
      | ok c ↦ ok c
      | err m ↦ err ("failed to unmarshal Redis config: " <> m)
    ]

-- The deferred calls.
pub data Deferred : Type 0 where
  cancel_context close_loader clean_up_telemetry : Deferred

-- How `main` gets up to its wait for a signal: with a server, and the calls that run at its end, the
-- first one first; or it ends by a `Fatalf`, which skips the calls that are deferred by then.
pub data Outcome : Type 0 where
  fatal : String → List Deferred → Outcome
  ready :
      (b : Backend)
      → GlobalConfig (StoreConfig b)
      → Service (Req b) (Rep b)
      → List Deferred
      → Outcome

-- The errors of `NewServer`; the others are not among them.
abbrev server_error_text : Error → String
server_error_text nil_config = "config is nil"
server_error_text nil_logger = "logger is nil"
server_error_text nil_metrics = "metrics is nil"
server_error_text nil_initializer = "store initializer is nil"
server_error_text _ = ""

-- What `main` passes to `NewServer`.
abbrev all_given : Given
all_given = record { config = true; logger = true; metrics = true; initializer = true }

-- `provider` is the error of `InitProvider`, and `metrics` that of `NewMetricsClient`.
module _ (provider metrics : Observability → Option String) where
  pub make_server : (b : Backend) → GlobalConfig (StoreConfig b) → Outcome
  make_server b c = elim (metrics c.observability) [
    | some m ↦
        fatal ("Failed to create metrics client: " <> m)
          (clean_up_telemetry ∷ close_loader ∷ cancel_context ∷ [])
    | none ↦ elim (new_server {Req = Req b} {Rep = Rep b} all_given) [
      | err e ↦
          fatal ("Failed to create server: " <> server_error_text e)
            (clean_up_telemetry ∷ close_loader ∷ cancel_context ∷ [])
      | ok q ↦ ready b c q (clean_up_telemetry ∷ close_loader ∷ cancel_context ∷ [])
    ]
  ]

  pub set_up_backend : (b : Backend) → Result String (GlobalConfig (StoreConfig b)) → Outcome
  set_up_backend b (err m) =
      fatal ("Failed to load " <> name_of b <> " config: " <> m) (cancel_context ∷ [])
  set_up_backend b (ok c) = elim (provider c.observability) [
    | some m ↦
        fatal ("Failed to initialize observability: " <> m) (close_loader ∷ cancel_context ∷ [])
    | none ↦ make_server b c
  ]

  pub set_up_selected :
      Option Backend
      → String
      → ((b : Backend) → Result String (GlobalConfig (StoreConfig b)))
      → Outcome
  set_up_selected none backend_type load =
      fatal ("Unsupported backend type: " <> backend_type) (cancel_context ∷ [])
  set_up_selected (some b) backend_type load = set_up_backend b (load b)

  -- `main` up to its wait, from what `DetectBackendType`, `NewLogger` (its error) and `LoadConfig` give.
  unfoldable pub set_up :
      Result String String
      → Option String
      → ((b : Backend) → Result String (GlobalConfig (StoreConfig b)))
      → Outcome
  set_up (err m) logger load = fatal ("Failed to detect backend type: " <> m) (cancel_context ∷ [])
  set_up (ok backend_type) (some m) load =
      fatal ("Failed to initialize logger: " <> m) (cancel_context ∷ [])
  set_up (ok backend_type) none load =
      set_up_selected (select_backend backend_type) backend_type load

-- The functions that make the server's store. Both interfaces of internal/store have the same methods,
-- so that the assertion on the store's type holds. `describe` is the error's text.
abbrev pub initialize :
    {Rq : Type 0} {Rp : Rq → Type 0} {E S : Type 0}
    → String
    → (E → String)
    → (S → LockStore Rq Rp)
    → Program Rq Rp (Result E S)
    → Program Rq Rp (Result String (LockStore Rq Rp))
initialize name describe behind made = made >>= λ r. elim r [
  | ok s ↦ done (ok (behind s))
  | err e ↦ done (err ("failed to initialize " <> name <> " store: " <> describe e))
]

unfoldable pub init_redis :
    (ℤ → String)
    → (ConstructError Redis.NewError → String)
    → GlobalConfig (StoreConfig redis)
    → Redis.Handler (Result String (LockStore Redis.Request Redis.Reply))
unfolding redis_new_store
init_redis format_int describe c =
    initialize "Redis" describe redis_store
      (redis_new_store format_int (redis_options (some c.store)))

unfoldable pub init_scylla :
    (ℤ → String)
    → (ConstructError Scylla.NewError → String)
    → GlobalConfig (StoreConfig scylladb)
    → Scylla.Handler (Result String (LockStore Scylla.Request Scylla.Reply))
unfolding scylla_new_store
init_scylla format_int describe c =
    initialize "ScyllaDB" describe (scylla_store format_int)
      (scylla_new_store format_int (scylla_options (some c.store)))

-- `NewStore` of the package dynamodb itself, at one reading of the clock.
unfoldable pub init_dynamo :
    ℕ
    → (Dynamo.NewError → String)
    → GlobalConfig (StoreConfig dynamodb)
    → Dynamo.Handler (Result String (LockStore Dynamo.Request Dynamo.Reply))
init_dynamo now describe c =
    initialize "DynamoDB" describe (λ s. dynamo_store s now) (Dynamo.new_store (some c.store) true)

-- Past the signal, which is given by its name: `Stop`, and the deferred calls that run then.
unfoldable pub shut_down :
    {Rq : Type 0} {Rp : Rq → Type 0}
    → String
    → Service Rq Rp
    → List Deferred
    → Program Rq Rp (Service Rq Rp × List Deferred)
shut_down signal q deferred = do
  logs info ("Received signal: " <> signal <> ", initiating shutdown")
  q' ← stop q
  logs info "Server shutdown complete"
  done (q', deferred)
