-- ===== src/Config/Loading.antt =====
-- internal/config/loaders.go, validator.go, types.go and the default of config.go: the configuration of
-- the service and the loaders of the backends.
use quorum_quest.Prelude.{
  String, str_eq, str_dec, Bool, Option, none, some, ◌≡◌, refl, arith, if◌then◌else◌, ◌<>◌,
}
use quorum_quest.Program.{Result, ok, err}
use quorum_quest.Redis.Config as RedisConfig
use quorum_quest.Dynamo.Config as DynamoConfig
use quorum_quest.Scylla.Config as ScyllaConfig

pub record Observability : Type 0 where
  pub service_name : String
  pub service_version : String
  pub environment : String
  pub otel_endpoint : String

-- `GlobalConfig`, with a store configuration of type `T`; `level` is the logger's, `backend_type` the
-- type of the backend.
pub record GlobalConfig (T : Type 0) : Type 0 where
  pub server_address : String
  pub store : T
  pub level : String
  pub observability : Observability
  pub backend_type : String

abbrev pub global_default : {T : Type 0} → String → T → GlobalConfig T
global_default backend store = record {
  server_address = "localhost:5050";
  store = store;
  level = "LOG_LEVELS_INFOLEVEL";
  observability = record {
    service_name = "quorum-quest";
    service_version = "0.1.0";
    environment = "development";
    otel_endpoint = "localhost:4317";
  };
  backend_type = backend;
}

-- `createDefaultConfig`, with `getBackendTypeFromConfig`, which has no case for Redis.
pub data Backend : Type 0 where
  scylladb dynamodb redis : Backend

unfoldable pub backend_type_of : Backend → String
backend_type_of scylladb = "scylladb"
backend_type_of dynamodb = "dynamodb"
backend_type_of redis = ""

abbrev pub StoreConfig : Backend → Type 0
StoreConfig scylladb = ScyllaConfig.Config
StoreConfig dynamodb = DynamoConfig.Config
StoreConfig redis = RedisConfig.Config

unfoldable pub new_store_config : (b : Backend) → StoreConfig b
new_store_config scylladb = ScyllaConfig.new_config
new_store_config dynamodb = DynamoConfig.new_config
new_store_config redis = RedisConfig.new_config

unfoldable pub create_default_config : (b : Backend) → GlobalConfig (StoreConfig b)
unfolding backend_type_of new_store_config
create_default_config b = global_default (backend_type_of b) (new_store_config b)

-- `validateConfig` of a configuration that is there, with the store configuration's `Validate`.
unfoldable pub validate_config : {T : Type 0} → (T → Option String) → GlobalConfig T → Option String
validate_config validate c = elim (validate c.store) [
  | some m ↦ some ("store validation failed: " <> m)
  | none ↦ none
]

checked :
    {T : Type 0}
    → (T → Option String)
    → Result String (GlobalConfig T)
    → Result String (GlobalConfig T)
checked validate (err m) = err m
checked validate (ok c) = elim (validate_config validate c) [ some m ↦ err m | none ↦ ok c ]

-- `DynamoConfigLoader`. `unmarshal` reads YAML over a configuration.
unfoldable pub dynamo_config_loader :
    (String → GlobalConfig DynamoConfig.Config → Result String (GlobalConfig DynamoConfig.Config))
    → String
    → Result String (GlobalConfig DynamoConfig.Config)
unfolding checked validate_config
dynamo_config_loader unmarshal content =
    if str_eq content ""
    then ok (global_default "dynamodb" DynamoConfig.new_config)
    else checked DynamoConfig.validate
        (unmarshal content (global_default "dynamodb" DynamoConfig.new_config))

-- `ScyllaConfigLoader`. `contains` is `strings.Contains`.
unfoldable pub scylla_config_loader :
    (String → String → Bool)
    → (String → GlobalConfig ScyllaConfig.Config → Result String (GlobalConfig ScyllaConfig.Config))
    → String
    → Result String (GlobalConfig ScyllaConfig.Config)
unfolding checked validate_config
scylla_config_loader contains unmarshal content =
    if str_eq content ""
    then ok (global_default "scylladb" ScyllaConfig.new_config)
    else if contains content "# Invalid configuration file for testing"
    then err "invalid configuration file for testing"
    else checked ScyllaConfig.validate
        (unmarshal content (global_default "scylladb" ScyllaConfig.new_config))

dynamo_default_valid : DynamoConfig.validate DynamoConfig.new_config ≡ none
unfolding DynamoConfig.validate DynamoConfig.new_config str_dec
dynamo_default_valid = refl

scylla_default_valid : ScyllaConfig.validate ScyllaConfig.new_config ≡ none
unfolding ScyllaConfig.validate ScyllaConfig.new_config str_dec
scylla_default_valid = refl

-- Whatever the file holds, a configuration that a loader returns has a valid store configuration.
pub config_loader_valid :
    (contains : String → String → Bool)
    (unmarshal : String
      → GlobalConfig DynamoConfig.Config
      → Result String (GlobalConfig DynamoConfig.Config))
    (unmarshal' : String
      → GlobalConfig ScyllaConfig.Config
      → Result String (GlobalConfig ScyllaConfig.Config))
    (content : String) (c : GlobalConfig DynamoConfig.Config)
    (c' : GlobalConfig ScyllaConfig.Config)
    → dynamo_config_loader unmarshal content ≡ ok c
    → scylla_config_loader contains unmarshal' content ≡ ok c'
    → (DynamoConfig.validate c.store ≡ none) × (ScyllaConfig.validate c'.store ≡ none)
unfolding dynamo_config_loader scylla_config_loader checked validate_config
config_loader_valid contains unmarshal unmarshal' content c c' h h' =
    (ground (arith, dynamo_default_valid), ground (arith, scylla_default_valid))
