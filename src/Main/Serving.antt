-- ===== src/Main/Serving.antt =====
-- cmd/quorum-quest-service/main.go with internal/server/server.go: the server that is started for a backend.
use quorum_quest.Prelude.{
  ℕ, ℤ, String, str_eq, Option, none, some, true, false, ◌≡◌, ap, ◌∙◌, ◌<>◌, if◌then◌else◌,
}
use quorum_quest.Program.{Server, Result, ok, err, Program, ◌>>=◌, execute}
use quorum_quest.Config.Loading.{redis, dynamodb, scylladb, StoreConfig, GlobalConfig}
use quorum_quest.Redis
use quorum_quest.Dynamo
use quorum_quest.Scylla
use quorum_quest.Registry.Stores.{
  ConstructError, lift, redis_new_store, redis_options, scylla_new_store, scylla_options,
}
use quorum_quest.Service.{
  Service, LockStore, Error, start, init_store, serve, init_failed, serve_failed,
}
use quorum_quest.Service.Handlers.{serving}
use quorum_quest.Service.Lifecycle.{execute->>=}
use quorum_quest.Service.Stores.{redis_store, dynamo_store, scylla_store}
use quorum_quest.Main.{initialize, init_redis, init_dynamo, init_scylla}

execute-then :
    {Rq : Type 0} {Rp : Rq → Type 0} (S : Server Rq Rp) {A B : Type 0} (p : Program Rq Rp A)
    (f : A → Program Rq Rp B) (st st' : S.State) (a : A)
    → execute S p st ≡ (a, st')
    → execute S (p >>= f) st ≡ execute S (f a) st'
execute-then S p f st st' a h =
    execute->>= S p f st ∙ ap (λ (x : _ × S.State). execute S (f x.0) x.1) h

abbrev pub serve_ends : Option String → Result Error (Unit {0})
serve_ends none = ok tt
serve_ends (some m) = if str_eq m "closed" then ok tt else err (serve_failed m)

module _ {Rq : Type 0} {Rp : Rq → Type 0} where
  -- A server that has just been made.
  abbrev pub idle : Service Rq Rp
  idle = record { listening = false; serving = false; store = none }

  abbrev pub listening : Service Rq Rp
  listening = record { listening = true; serving = false; store = none }

  -- What `Start` returns, and the server, for what the constructor of the store returns.
  abbrev pub started :
      {E T : Type 0}
      → String
      → (E → String)
      → (T → LockStore Rq Rp)
      → Option String
      → Result E T
      → Result Error (Unit {0}) × Service Rq Rp
  started name describe behind served (ok s) = (serve_ends served, serving (behind s))
  started name describe behind served (err e) =
      (err (init_failed ("failed to initialize " <> name <> " store: " <> describe e)), listening)

  module _ (S : Server Rq Rp) {E T : Type 0} (name : String) (describe : E → String)
      (behind : T → LockStore Rq Rp) (made : Program Rq Rp (Result E T)) (st st' : S.State) where
    initialized :
        (r : Result E T)
        → execute S made st ≡ (r, st')
        → execute S (initialize name describe behind made) st ≡ (
          elim r [
            | ok s ↦ ok (behind s)
            | err e ↦ err ("failed to initialize " <> name <> " store: " <> describe e)
          ],
          st',
        )
    initialized (ok s) h = execute-then S made _ st st' (ok s) h
    initialized (err e) h = execute-then S made _ st st' (err e) h

    -- The store that is made, or the error, in the server.
    kept :
        (p : Program Rq Rp (Result String (LockStore Rq Rp))) (r : Result String (LockStore Rq Rp))
        → execute S p st ≡ (r, st')
        → execute S (init_store p listening) st ≡ (
          elim r [
            | ok store ↦ (none, record listening { store = some store })
            | err m ↦ (some m, listening)
          ],
          st',
        )
    unfolding init_store
    kept p (ok store) h = execute-then S p _ st st' (ok store) h
    kept p (err m) h = execute-then S p _ st st' (err m) h

    start_initialized :
        (served : Option String) (r : Result E T)
        → execute S made st ≡ (r, st')
        → execute S (start none (initialize name describe behind made) served idle) st
          ≡ (started name describe behind served r, st')
    unfolding start serve
    start_initialized served (ok s) h =
        execute-then S (init_store (initialize name describe behind made) listening) _ st st' _
          (kept (initialize name describe behind made) (ok (behind s)) (initialized (ok s) h))
    start_initialized served (err e) h =
        execute-then S (init_store (initialize name describe behind made) listening) _ st st' _
          (kept (initialize name describe behind made) (err _) (initialized (err e) h))

redis_made :
    (S : Server Redis.Request Redis.Reply) (format_int : ℤ → String)
    (c : GlobalConfig (StoreConfig redis)) (st st' : S.State)
    (r : Result Redis.NewError Redis.Store)
    → execute S (Redis.new format_int (some c.store)) st ≡ (r, st')
    → execute S (redis_new_store format_int (redis_options (some c.store))) st ≡ (lift r, st')
unfolding redis_new_store
redis_made S format_int c st st' r h =
    execute-then S (Redis.new format_int (some c.store)) _ st st' r h

scylla_made :
    (S : Server Scylla.Request Scylla.Reply) (format_int : ℤ → String)
    (c : GlobalConfig (StoreConfig scylladb)) (st st' : S.State)
    (r : Result Scylla.NewError Scylla.Store)
    → execute S (Scylla.new format_int (some c.store)) st ≡ (r, st')
    → execute S (scylla_new_store format_int (scylla_options (some c.store))) st ≡ (lift r, st')
unfolding scylla_new_store
scylla_made S format_int c st st' r h =
    execute-then S (Scylla.new format_int (some c.store)) _ st st' r h

-- Where the address is free, the server that `main` starts for Redis serves over the store that `New`
-- makes of the loaded configuration, and Start ends as the gRPC server does; where `New` fails, Start
-- returns its error and the server has no store.
pub start-redis :
    (S : Server Redis.Request Redis.Reply) (format_int : ℤ → String)
    (describe : ConstructError Redis.NewError → String) (c : GlobalConfig (StoreConfig redis))
    (st st' : S.State) (served : Option String) (r : Result Redis.NewError Redis.Store)
    → execute S (Redis.new format_int (some c.store)) st ≡ (r, st')
    → execute S (start none (init_redis format_int describe c) served idle) st
      ≡ (started "Redis" describe redis_store served (lift r), st')
unfolding init_redis
start-redis S format_int describe c st st' served r h =
    start_initialized S "Redis" describe redis_store
      (redis_new_store format_int (redis_options (some c.store))) st st' served (lift r)
      (redis_made S format_int c st st' r h)

-- Where the address is free, the server for ScyllaDB serves over the store that `New` of package
-- scylladb makes; where that fails, Start returns its error and the server has no store.
pub start-scylla :
    (S : Server Scylla.Request Scylla.Reply) (format_int : ℤ → String)
    (describe : ConstructError Scylla.NewError → String) (c : GlobalConfig (StoreConfig scylladb))
    (st st' : S.State) (served : Option String) (r : Result Scylla.NewError Scylla.Store)
    → execute S (Scylla.new format_int (some c.store)) st ≡ (r, st')
    → execute S (start none (init_scylla format_int describe c) served idle) st
      ≡ (started "ScyllaDB" describe (scylla_store format_int) served (lift r), st')
unfolding init_scylla
start-scylla S format_int describe c st st' served r h =
    start_initialized S "ScyllaDB" describe (scylla_store format_int)
      (scylla_new_store format_int (scylla_options (some c.store))) st st' served (lift r)
      (scylla_made S format_int c st st' r h)

-- Where the address is free, the server for DynamoDB serves over the store that `NewStore` of package
-- dynamodb makes; where that fails, Start returns its error and the server has no store.
pub start-dynamo :
    (S : Server Dynamo.Request Dynamo.Reply) (now : ℕ) (describe : Dynamo.NewError → String)
    (c : GlobalConfig (StoreConfig dynamodb)) (st st' : S.State) (served : Option String)
    (r : Result Dynamo.NewError Dynamo.Store)
    → execute S (Dynamo.new_store (some c.store) true) st ≡ (r, st')
    → execute S (start none (init_dynamo now describe c) served idle) st
      ≡ (started "DynamoDB" describe (λ s. dynamo_store s now) served r, st')
unfolding init_dynamo
start-dynamo S now describe c st st' served r h =
    start_initialized S "DynamoDB" describe (λ s. dynamo_store s now)
      (Dynamo.new_store (some c.store) true) st st' served r h
