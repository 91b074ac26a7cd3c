-- ===== src/Observability/Memory.antt =====
-- An SDK in memory that has the laws of Observability/Telemetry.antt, and makes no metric exporter. It shows
-- that the laws can be met.
use quorum_quest.Prelude.{true, false, refl}
use quorum_quest.Program.{ok, err, Server}
use quorum_quest.Observability.{
  Request, Reply, new_resource, new_trace_exporter, new_metric_exporter, set_tracer_provider,
  set_propagator, set_meter_provider, shutdown_tracer, shutdown_meter, new_histogram, new_counter,
  add, record_value,
}
use quorum_quest.Observability.Telemetry.{Running, IsTelemetry}

abbrev answer : (r : Request) → Running → Reply r × Running
answer (new_resource n v e) s = (ok tt, s)
answer (new_trace_exporter p) s = (ok tt, s)
answer (new_metric_exporter p) s = (err "unreachable", s)
answer set_tracer_provider s = (tt, record s { tracing = true })
answer set_propagator s = (tt, s)
answer set_meter_provider s = (tt, record s { metering = true })
answer shutdown_tracer s = (ok tt, record s { tracing = false })
answer shutdown_meter s = (ok tt, record s { metering = false })
answer (new_histogram m n) s = (ok tt, s)
answer (new_counter n) s = (ok tt, s)
answer (add n v attrs) s = (tt, s)
answer (record_value v attrs) s = (tt, s)

abbrev pub sdk : Server Request Reply
sdk = record { State = Running; handle = answer }

abbrev pub state : sdk.State → Running
state s = s

pub sdk-IsTelemetry : IsTelemetry sdk state
sdk-IsTelemetry = record {
  resource_keeps = λ s n v e. refl;
  trace_exporter_keeps = λ s p. refl;
  metric_exporter_keeps = λ s p. refl;
  propagator_keeps = λ s. refl;
  on_tracer = λ s. refl;
  on_meter = λ s. refl;
  on_shutdown_tracer = λ s. refl;
  on_shutdown_meter = λ s. refl;
  shutdown_meter_keeps = λ s. refl;
}

abbrev pub stopped : Running
stopped = record { tracing = false; metering = false }
