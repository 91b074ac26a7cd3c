-- ===== src/Main/Tests.antt =====
-- Runs of cmd/quorum-quest-service/main.go, and the witnesses.
use quorum_quest.Prelude.{
  ℤ, String, str_dec, true, false, ◌&&◌, ◌||◌, Option, none, some, List, [], ◌∷◌, ◌≡◌, ◌⊎◌, refl,
}
use quorum_quest.Program.{Result, ok, done, execute}
use quorum_quest.Lease.{seconds}
use quorum_quest.Config.Loading.{
  Backend, redis, StoreConfig, GlobalConfig, Observability, create_default_config,
}
use quorum_quest.Redis
use quorum_quest.Redis.Memory.{memory}
use quorum_quest.Registry.Stores.{ConstructError, lift}
use quorum_quest.Service.{Service, LockStore, start}
use quorum_quest.Service.Stores.{redis_store}
use quorum_quest.Main.{
  Deferred, cancel_context, close_loader, clean_up_telemetry, select_backend, set_up, init_redis,
}
use quorum_quest.Main.Startup.{is_ready, deferred}
use quorum_quest.Main.Telemetry.{cleans_up, is_metric_failure, provider, set_up-telemetry}
use quorum_quest.Observability.{InitError, init_provider}
use quorum_quest.Observability.Memory.{sdk, state, sdk-IsTelemetry, stopped}
use quorum_quest.Main.Process.{
  serving, waiting, Running, running, over, returned, panicked, failed_start, launch, Reach, here,
  next, signal, stops_gracefully, closes_store, returns,
}
use quorum_quest.Main.Shutdown.{is_fatal, serving_ends_orderly, signal_during_start}
use quorum_quest.Main.Serving.{idle, started, start-redis}

abbrev same : String → String
same s = s

abbrev no_error : Observability → Option String
no_error c = none

abbrev defaults : (b : Backend) → Result String (GlobalConfig (StoreConfig b))
defaults b = ok (create_default_config b)

selected : select_backend "redis" ≡ some redis
unfolding select_backend str_dec
selected = refl

abbrev init_refused : InitError → String
init_refused e = "refused"

-- The metric exporter is not made: the tracer provider runs and no call is deferred that ends it.
set_up-telemetry_example :
    let c = create_default_config redis in
    let (failed, s') = execute sdk (init_provider c.observability) stopped in
    let outcome =
      set_up
        (provider sdk state sdk-IsTelemetry init_refused no_error stopped)
        no_error
        (ok "redis")
        none
        defaults in
    let ends = cleans_up (deferred outcome) in
    (ends ≡ s'.metering)
    × (s'.tracing ≡ (ends || is_metric_failure failed))
    × (is_ready outcome ≡ (ends && true))
set_up-telemetry_example =
    set_up-telemetry sdk state sdk-IsTelemetry init_refused no_error stopped defaults "redis" redis
      (create_default_config redis) selected refl refl refl

abbrev digits : ℤ → String
digits n = "6379"

abbrev describe : ConstructError Redis.NewError → String
describe e = "refused"

abbrev no_keys : String → Option String
no_keys k = none

abbrev made : Result Redis.NewError Redis.Store
made = (execute memory (Redis.new digits (some (create_default_config redis).store)) no_keys).0

start-redis_example :
    execute memory
      (start none (init_redis digits describe (create_default_config redis)) none idle)
      no_keys
    ≡ (started "Redis" describe redis_store none (lift made), no_keys)
unfolding Redis.new
start-redis_example =
    start-redis memory digits describe (create_default_config redis) no_keys no_keys none made refl

abbrev locks : LockStore Redis.Request Redis.Reply
locks = record {
  try_acquire = λ s d c ttl. done true;
  release = λ s d c. done tt;
  renew = λ s d c ttl. done (seconds ttl);
  close = done tt;
}

abbrev opened_calls : List Deferred
opened_calls = clean_up_telemetry ∷ close_loader ∷ cancel_context ∷ []

-- The process, in `Serve`.
abbrev up : Running Redis.Request Redis.Reply
up = record {
  starter = serving;
  phase = waiting;
  server = record { listening = true; serving = true; store = some locks };
  halting = false;
  closed = [];
  deferred = opened_calls;
}

shuts_down : Reach (running up) (over (returned opened_calls) (locks ∷ []))
shuts_down =
    next
      (next (next (next here (signal _ refl)) (stops_gracefully _ refl refl)) (closes_store _ refl))
      (returns _ refl)

serving_ends_orderly_example :
    ((returned opened_calls ≡ returned opened_calls) × (locks ∷ [] ≡ locks ∷ []))
    ⊎ ((is_fatal (returned opened_calls) ≡ true) × ((locks ∷ [] ≡ []) ⊎ (locks ∷ [] ≡ locks ∷ [])))
serving_ends_orderly_example =
    serving_ends_orderly locks opened_calls up (returned opened_calls) (locks ∷ []) shuts_down refl
      refl refl refl refl refl

abbrev new_one : Service Redis.Request Redis.Reply
new_one = idle

signal_during_start_example :
    Reach (launch new_one opened_calls) (over panicked (locks ∷ []))
    × Reach
        (launch new_one opened_calls)
        (over (failed_start "grpc: the server has been stopped") [])
    × Reach (launch new_one opened_calls) (over (returned opened_calls) [])
signal_during_start_example = signal_during_start locks opened_calls new_one refl
