-- ===== src/Registry/Stores.antt =====
-- The constructors that the stores register: newStore of internal/store/redis/redis_store.go,
-- internal/store/dynamodb/dynamodb_store.go and internal/store/scylladb/scylladb_store.go.
use quorum_quest.Prelude.{ℤ, String, Bool, Option, none}
use quorum_quest.Program.{Result, ok, err, done, ◌>>=◌}
use quorum_quest.Redis
use quorum_quest.Redis.Config as RedisConfig
use quorum_quest.Dynamo
use quorum_quest.Dynamo.Config as DynamoConfig
use quorum_quest.Scylla
use quorum_quest.Scylla.Config as ScyllaConfig

-- The dynamic value of an option: a configuration of one of the stores (a nil pointer is `none`),
-- nil, or a value of another type.
pub data Options : Type 0 where
  redis_options : Option RedisConfig.Config → Options
  dynamo_options : Option DynamoConfig.Config → Options
  scylla_options : Option ScyllaConfig.Config → Options
  nil_options other_options : Options

-- `InvalidConfigurationError`, or what the store's own constructor returns.
pub data ConstructError (E : Type 0) : Type 0 where
  invalid_configuration : String → ConstructError E
  refused : E → ConstructError E

abbrev pub lift : {E S : Type 0} → Result E S → Result (ConstructError E) S
lift (ok s) = ok s
lift (err e) = err (refused e)

unfoldable pub redis_new_store :
    (ℤ → String) → Options → Redis.Handler (Result (ConstructError Redis.NewError) Redis.Store)
redis_new_store format_int (redis_options c) = Redis.new format_int c >>= λ r. done (lift r)
redis_new_store format_int nil_options = Redis.new format_int none >>= λ r. done (lift r)
redis_new_store format_int options = done (err (invalid_configuration "redis"))

unfoldable pub dynamo_new_store :
    Bool → Options → Dynamo.Handler (Result (ConstructError Dynamo.NewError) Dynamo.Store)
dynamo_new_store logger (dynamo_options c) = Dynamo.new_store c logger >>= λ r. done (lift r)
dynamo_new_store logger nil_options = Dynamo.new_store none logger >>= λ r. done (lift r)
dynamo_new_store logger options = done (err (invalid_configuration "dynamodb"))

unfoldable pub scylla_new_store :
    (ℤ → String) → Options → Scylla.Handler (Result (ConstructError Scylla.NewError) Scylla.Store)
scylla_new_store format_int (scylla_options c) = Scylla.new format_int c >>= λ r. done (lift r)
scylla_new_store format_int nil_options = Scylla.new format_int none >>= λ r. done (lift r)
scylla_new_store format_int options = done (err (invalid_configuration "scylladb"))
