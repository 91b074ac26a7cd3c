-- ===== src/Lib.antt =====
-- Quorum Quest gives leader election and distributed locks: a gRPC service (internal/server) passes
-- the calls of its clients on to one of three stores (internal/store), each of which keeps the locks
-- in an external database. A lock is named by a service and a domain, is held by a client, and is
-- leased for a TTL.
--
-- Files:
--   Prelude            shared names, comparisons on the native numbers
--   Prelude/Int        integers, the range of int32 and its wrapping product
--   Prelude/Text       decidable equality and concatenation of texts
--   Prelude/Colon      texts joined by colons
--   Program            a store's method as a program over its database client: requests with a
--                      continuation for the reply, log lines, and a result. `execute` runs a program
--                      against a server, `advance` follows one request of it, so that requests of
--                      several clients interleave
--   Lease              the abstract lock: acquire, release, renew, without and with time
--   Calls              a call of a store by some client, and its answer
--   Redis              internal/store/redis/redis_store.go: New, TryAcquireLock, ReleaseLock, KeepAlive,
--                      Close. Config is redisconfig.go
--   Dynamo             internal/store/dynamodb/dynamodb_store.go: NewStore, the table set-up, the lock
--                      calls, Close. Config is dynamodbconfig.go
--   Scylla             internal/store/scylladb/scylladb_store.go: New, the session set-up, the lock
--                      calls, Close, with the CQL statements as text. Config is scylladbconfig.go
--   Client             client/go/quorum-quest-client/client.go: TryAcquireLock, ReleaseLock, keepAlive, the
--                      turn of the keep-alive goroutine, StartKeepAlive, the options and the constructor.
--                      Shutdown has StopKeepAlive and the goroutine as a step relation on the mutex
--   Service            internal/server/server.go: NewServer, Start, Stop and the handlers, over the interface
--                      of internal/store/lock_store.go. Handlers has what they answer, Stores the three
--                      stores behind the interface, Interceptor the metrics around a call.
--                      Leadership puts a client on a Redis store
--   Registry           internal/lockservice/lockservice.go. Registry/Stores has the stores' newStore, Init the
--                      registrations by the packages
--   Store              internal/store/store.go and errors.go: ServiceRecord, the texts of the errors
--   Config             internal/config: DetectBackendType, the search for the file, loadFromFile. Loading has
--                      the loaders and the default, RedisLoader RedisConfigLoader, Overrides the
--                      environment (Typing the kinds of the fields past it, Reads and Paths their values),
--                      Loader LoadConfig and the life of a ConfigLoader, Watching what the watching goroutine
--                      does with an event, Stability its wait for a file, Validity the configuration from
--                      its loading on
--   Election           several clients against one server, its store and its database: each call of a client
--                      goes through the handler and the store. Contract is what a store owes an
--                      election; OnRedis, OnDynamo and OnScylla are about the stores, Leased
--                      about the leases in the table of DynamoDB. Leasing is about elections while the
--                      clock runs: what a store owes them, and the Redis and DynamoDB stores
--   Example            client/go/quorum-quest-client/example/main.go: the tasks of a process that leads.
--                      Loop has its turns, Session its signal and its end, Order the callbacks in
--                      any order, Cluster many such processes in an election, Leases these while the
--                      clock runs
--   Observability      internal/observability: InitProvider, the metrics client, the tags, the logger.
--                      Memory is an SDK
--   Main               cmd/quorum-quest-service/main.go: the start-up and the shutdown of the service.
--                      Telemetry has what of the telemetry runs past the start-up.
--                      Process has the goroutine of the server against the signal, as a step relation
--   */Server           what each store relies on of its database, as hypotheses. A request that fails
--                      may have been carried out or not. Redis/Expiry adds the deadlines of the keys.
--                      That reads are up to date is a hypothesis of its own for DynamoDB and ScyllaDB
--   */Memory           a database in memory that has those laws, as the witness that they can hold; so is
--                      Redis/Clocked, with deadlines and a clock
--   */Safety, Leases   the single calls, whatever fails
--   */Refinement       the calls against Lease, when every request is answered
--   */History          sequences of calls by several clients
--   */Races            what another client does between two requests of one call; Scylla/Races also what
--                      a read-back that is out of date does
--   */Keys, Setup      the keys, and the constructors with their configurations
--   */Mock             the MockStore of mock_redis.go, mock_dynamodb.go and mock_scylladb.go, next to the
--                      store that it stands for; */MockClient the clients of these mocks, over Mocks
--   */Tests            runs on concrete databases, and the witnesses; Election/Samples has their clients
--
-- Names: a method keeps its name in snake case. Methods of a store take the receiver's fields as a
-- `Store` record. A duration is a number of nanoseconds (`seconds` multiplies as int64 does), a TTL is
-- an int32, both as ℤ. A clock reading is a whole number of seconds, that of Redis (Redis/Expiry) one of
-- nanoseconds.
--
-- The programs are finite and no function takes fuel; the wait for a stable file has its three rounds as
-- an argument. Contexts and their cancellation are not modelled but as requests that fail. Redis,
-- DynamoDB, ScyllaDB, OpenTelemetry and their client libraries are parameters, and so are the RPC of a
-- client, the file system and its watcher, the environment, YAML and the functions of Go's library
-- that depend on Unicode. The callbacks of a client stand in the order in which they are started,
-- but in Example/Order. Not modelled: the generated API code, the gRPC server itself and the clients in other languages.
pub mod Prelude
pub mod Program
pub mod Lease
pub mod Calls
pub mod Redis
pub mod Dynamo
pub mod Scylla
pub mod Client
pub mod Service
pub mod Registry
pub mod Mocks
pub mod Store
pub mod Config
pub mod Election
pub mod Example
pub mod Observability
pub mod Main
