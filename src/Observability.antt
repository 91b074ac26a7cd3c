-- ===== src/Observability.antt =====
-- internal/observability: the metrics, the telemetry's start, and the logger. The OpenTelemetry SDK is at
-- the other end of the requests; the span of a context and zap's logger are parameters.
pub mod Tags
pub mod Telemetry
pub mod Memory
pub mod Logger
mod Tests
use quorum_quest.Prelude.{ℤ, String, str_eq, ◌<>◌, List, [], ◌∷◌, Option, none, some, if◌then◌else◌}
use quorum_quest.Program.{
  error, Result, ok, err, Program, done, call, log, ◌>>=◌, ◌>>◌, request, logs,
}
use quorum_quest.Client.{quotient}
use quorum_quest.Config.Loading.{Observability}

-- `attributesFromTags`: the loop takes two tags at a time, and leaves out a last one that is alone.
unfoldable pub attributes_from_tags : List String → List (String × String)
attributes_from_tags [] = []
attributes_from_tags (k ∷ []) = []
attributes_from_tags (k ∷ v ∷ tags) = (k, v) ∷ attributes_from_tags tags

-- What the code asks of the SDK. `new_resource` has the service's name, its version and the
-- environment; the exporters have the endpoint; a histogram is made for the meter of a name.
pub data Request : Type 0 where
  new_resource : String → String → String → Request
  new_trace_exporter new_metric_exporter : String → Request
  set_tracer_provider set_propagator set_meter_provider : Request
  shutdown_tracer shutdown_meter : Request
  new_histogram : String → String → Request
  new_counter : String → Request
  add : String → ℤ → List (String × String) → Request
  record_value : ℤ → List (String × String) → Request

abbrev pub Reply : Request → Type 0
Reply (new_resource n v e) = Result String (Unit {0})
Reply (new_trace_exporter p) = Result String (Unit {0})
Reply (new_metric_exporter p) = Result String (Unit {0})
Reply set_tracer_provider = Unit {0}
Reply set_propagator = Unit {0}
Reply set_meter_provider = Unit {0}
Reply shutdown_tracer = Result String (Unit {0})
Reply shutdown_meter = Result String (Unit {0})
Reply (new_histogram m n) = Result String (Unit {0})
Reply (new_counter n) = Result String (Unit {0})
Reply (add n v attrs) = Unit {0}
Reply (record_value v attrs) = Unit {0}

abbrev pub Handler : Type 0 → Type 0
Handler = Program Request Reply

pub data InitError : Type 0 where
  resource_failed trace_exporter_failed metric_exporter_failed : String → InitError

start_metrics : String → Handler (Option InitError)
start_metrics endpoint = do
  made ← request (new_metric_exporter endpoint)
  elim made [
    | err m ↦ done (some (metric_exporter_failed ("failed to create metric exporter: " <> m)))
    | ok u ↦ request set_meter_provider >>= λ v. done none
  ]

start_tracing : String → Handler (Option InitError)
unfolding start_metrics
start_tracing endpoint = do
  made ← request (new_trace_exporter endpoint)
  elim made [
    | err m ↦ done (some (trace_exporter_failed ("failed to create trace exporter: " <> m)))
    | ok u ↦ do _ ← request set_tracer_provider; _ ← request set_propagator; start_metrics endpoint
  ]

unfoldable pub resolve_endpoint : Observability → String
resolve_endpoint c = if str_eq c.otel_endpoint "" then "localhost:4317" else c.otel_endpoint

-- `InitProvider`: `none` stands for the cleanup function, which is `clean_up`.
unfoldable pub init_provider : Observability → Handler (Option InitError)
unfolding start_tracing resolve_endpoint
init_provider c = do
  made ← request (new_resource c.service_name c.service_version c.environment)
  elim made [
    | err m ↦ done (some (resource_failed ("failed to create resource: " <> m)))
    | ok u ↦ start_tracing (resolve_endpoint c)
  ]

-- A line that is printed is a line of the log here.
abbrev print_error : String → Result String (Unit {0}) → Handler (Unit {0})
print_error what (ok u) = done tt
print_error what (err m) = logs error (what <> m)

unfoldable pub clean_up : Handler (Unit {0})
clean_up = do
  traced ← request shutdown_tracer
  _ ← print_error "Error shutting down tracer provider: " traced
  metered ← request shutdown_meter
  print_error "Error shutting down meter provider: " metered

-- `NewMetricsClient`
unfoldable pub new_metrics_client : Observability → Handler (Option String)
new_metrics_client c = do
  made ← request (new_histogram c.service_name "operation.latency")
  elim made [ err m ↦ done (some ("failed to create latency histogram: " <> m)) | ok u ↦ done none ]

unfoldable pub increment : String → ℤ → List String → Handler (Unit {0})
unfolding attributes_from_tags
increment name value attributes = do
  made ← request (new_counter name)
  elim made [
    | err m ↦ logs error ("Failed to create counter metric '" <> name <> "': " <> m)
    | ok u ↦ request (add name value (attributes_from_tags attributes))
  ]

-- `RecordLatency`, of a duration in nanoseconds, which records milliseconds; `none` is the nil error.
unfoldable pub record_latency : ℤ → List String → Handler (Option String)
unfolding attributes_from_tags
record_latency duration tags =
    request (record_value (quotient duration 1000000) (attributes_from_tags tags)) >>= λ u.
    done none
