-- ===== src/Service/Tests.antt =====
-- Runs of internal/server/server.go over a Redis store in memory, and the witnesses.
use quorum_quest.Prelude.{ℕ, some, pos, true, String, Option, none, [], ◌≡◌, refl, arith}
use quorum_quest.Program.{Server, ok, err, done, execute, logged}
use quorum_quest.Lease.{held_by}
use quorum_quest.Redis
use quorum_quest.Redis.Memory.{memory, held, memory-IsRedis, memory-IsHealthy}
use quorum_quest.Client.{Client, dialled, no_op, lock_request, release_request}
use quorum_quest.Client
use quorum_quest.Service.{panic, stop, try_acquire_lock, release_lock, keep_alive}
use quorum_quest.Observability as Telemetry
use quorum_quest.Observability.{
  new_resource, new_trace_exporter, new_metric_exporter, set_tracer_provider, set_propagator,
  set_meter_provider, shutdown_tracer, shutdown_meter, new_histogram, new_counter, add,
  record_value,
}
use quorum_quest.Service.Interceptor.{
  unary_server_interceptor, error_lines, unary_server_interceptor_transparent,
}
use quorum_quest.Service.Lifecycle.{stop_idempotent, stop_panics}
use quorum_quest.Service.Leadership.{serving, through, leads_iff_holds}

abbrev redis : Redis.Store
redis = record {
  ttl = pos 15;
  key_prefix = "lock";
  config = record {
    host = "localhost";
    port = pos 6379;
    password = "";
    db = pos 0;
    ttl = pos 15;
    key_prefix = "lock";
    endpoints = [];
    table_name = "locks";
  };
}

abbrev client : Client
client = record {
  running = true;
  ttl = pos 15000000000;
  remaining_lease = pos 15000000000;
  service = "svc";
  domain = "d";
  id = "a";
  stub = dialled "localhost:5050";
  callbacks = no_op;
  is_leader = true;
}

abbrev empty : String → Option String
empty k = none

leads_iff_holds_example :
    let (_, q', _) = Client.try_acquire_lock (through memory redis none empty) client in
    let (_, st') =
      execute memory (try_acquire_lock none (serving redis) (lock_request client)) empty in
    q'.is_leader ≡ held_by (held st' (Redis.lock_key redis "svc" "d")) "a"
unfolding lock_request Redis.resolve_ttl
leads_iff_holds_example =
    leads_iff_holds memory held memory-IsRedis memory-IsHealthy redis none client empty
      (omega arith) refl

stop_idempotent_example :
    let (q', t') = execute memory (stop (serving redis)) empty in
    execute memory (stop q') t' ≡ (q', t')
stop_idempotent_example = stop_idempotent memory (serving redis) empty

stop_panics_example :
    let (q', t') = execute memory (stop (serving redis)) empty in
    (try_acquire_lock none q' (lock_request client) ≡ done (err panic))
    × (release_lock none q' (release_request client) ≡ done (err panic))
    × (keep_alive none q' (lock_request client) ≡ done (err panic))
stop_panics_example =
    stop_panics memory (serving redis) empty none (lock_request client) (release_request client)
      refl

abbrev sdk_answer : (r : Telemetry.Request) → ℕ → Telemetry.Reply r × ℕ
sdk_answer (new_resource n v e) s = (ok tt, s)
sdk_answer (new_trace_exporter p) s = (ok tt, s)
sdk_answer (new_metric_exporter p) s = (ok tt, s)
sdk_answer set_tracer_provider s = (tt, s)
sdk_answer set_propagator s = (tt, s)
sdk_answer set_meter_provider s = (tt, s)
sdk_answer shutdown_tracer s = (ok tt, s)
sdk_answer shutdown_meter s = (ok tt, s)
sdk_answer (new_histogram m n) s = (ok tt, s)
sdk_answer (new_counter n) s = (err "no meter", s)
sdk_answer (add n v attrs) s = (tt, s)
sdk_answer (record_value v attrs) s = (tt, s)

-- An SDK that makes no counter.
abbrev sdk : Server Telemetry.Request Telemetry.Reply
sdk = record { State = ℕ; handle = sdk_answer }

abbrev code : Option String → String
code none = "OK"
code (some m) = "Unknown"

abbrev response : String × Option String
response = ("ok", none)

unary_server_interceptor_transparent_example :
    ((execute sdk (unary_server_interceptor code "KeepAlive" (pos 5) response) 0).0 ≡ response)
    × (logged sdk (unary_server_interceptor code "KeepAlive" (pos 5) response) 0
        ≡ error_lines (sdk.handle (new_counter "grpc.requests.total") 0).0)
unary_server_interceptor_transparent_example =
    unary_server_interceptor_transparent sdk code "KeepAlive" (pos 5) response 0
