-- ===== src/Observability/Telemetry.antt =====
-- internal/observability/observability.go: which providers are left running.
use quorum_quest.Prelude.{Bool, true, false, String, Option, none, some, ◌≡◌, arith}
use quorum_quest.Program.{Result, ok, err, Server, execute}
use quorum_quest.Config.Loading.{Observability}
use quorum_quest.Observability.{
  Request, Reply, new_resource, new_trace_exporter, new_metric_exporter, set_tracer_provider,
  set_propagator, set_meter_provider, shutdown_tracer, shutdown_meter, InitError, resource_failed,
  trace_exporter_failed, metric_exporter_failed, init_provider, clean_up, resolve_endpoint,
}

-- Whether a tracer provider and a meter provider run.
pub record Running : Type 0 where
  pub tracing : Bool
  pub metering : Bool

abbrev pub ShutTells : Bool → Bool → Result String (Unit {0}) → Type 0
ShutTells before after (ok u) = after ≡ false
ShutTells before after (err m) = Unit {0}

-- What the code relies on of the SDK: a provider that is set runs until it is shut down.
module _ (S : Server Request Reply) (running : S.State → Running) where
  pub record IsTelemetry : Type 0 where
    pub resource_keeps :
        (s : S.State) (n v e : String) → running (S.handle (new_resource n v e) s).1 ≡ running s
    pub trace_exporter_keeps :
        (s : S.State) (p : String) → running (S.handle (new_trace_exporter p) s).1 ≡ running s
    pub metric_exporter_keeps :
        (s : S.State) (p : String) → running (S.handle (new_metric_exporter p) s).1 ≡ running s
    pub propagator_keeps : (s : S.State) → running (S.handle set_propagator s).1 ≡ running s
    pub on_tracer :
        (s : S.State)
        → running (S.handle set_tracer_provider s).1 ≡ record (running s) { tracing = true }
    pub on_meter :
        (s : S.State)
        → running (S.handle set_meter_provider s).1 ≡ record (running s) { metering = true }
    pub on_shutdown_tracer :
        (s : S.State)
        → ShutTells
            (running s).tracing
            (running (S.handle shutdown_tracer s).1).tracing
            (S.handle shutdown_tracer s).0
    pub on_shutdown_meter :
        (s : S.State)
        → ShutTells
            (running s).metering
            (running (S.handle shutdown_meter s).1).metering
            (S.handle shutdown_meter s).0
    pub shutdown_meter_keeps :
        (s : S.State) → (running (S.handle shutdown_meter s).1).tracing ≡ (running s).tracing

  abbrev Shuts : Result String (Unit {0}) → Type 0
  Shuts (ok u) = Unit {0}
  Shuts (err m) = ⊥

  -- What InitProvider leaves running, from nothing that runs.
  abbrev pub Leaves : Option InitError → Running → Type 0
  Leaves none r = (r.tracing ≡ true) × (r.metering ≡ true)
  Leaves (some (resource_failed m)) r = (r.tracing ≡ false) × (r.metering ≡ false)
  Leaves (some (trace_exporter_failed m)) r = (r.tracing ≡ false) × (r.metering ≡ false)
  Leaves (some (metric_exporter_failed m)) r = (r.tracing ≡ true) × (r.metering ≡ false)

  -- From nothing that runs, InitProvider leaves both providers running when it succeeds. When it
  -- fails it leaves none running, except that the tracer provider runs on if the metric exporter is
  -- what failed.
  pub init_provider-Leaves :
      IsTelemetry
      → (c : Observability) (s : S.State) → (running s).tracing ≡ false
      → (running s).metering ≡ false
      → let (failed, s') = execute S (init_provider c) s in Leaves failed (running s')
  unfolding init_provider
  init_provider-Leaves T c s idle quiet =
      let s1 = (S.handle (new_resource c.service_name c.service_version c.environment) s).1 in
      let endpoint = resolve_endpoint c in
      let s2 = (S.handle (new_trace_exporter endpoint) s1).1 in
      let s3 = (S.handle set_tracer_provider s2).1 in
      let s4 = (S.handle set_propagator s3).1 in
      let s5 = (S.handle (new_metric_exporter endpoint) s4).1 in
      ground (
        arith,
        T.resource_keeps s c.service_name c.service_version c.environment,
        T.trace_exporter_keeps s1 endpoint,
        T.on_tracer s2,
        T.propagator_keeps s3,
        T.metric_exporter_keeps s4 endpoint,
        T.on_meter s5,
      )

  -- The cleanup function asks for both shutdowns, also if the first fails, and leaves nothing running
  -- where both succeed.
  pub clean_up_ends :
      IsTelemetry
      → ((s : S.State) → Shuts (S.handle shutdown_tracer s).0)
      → ((s : S.State) → Shuts (S.handle shutdown_meter s).0)
      → (s : S.State)
      → let (_, s') = execute S clean_up s in
        ((running s').tracing ≡ false) × ((running s').metering ≡ false)
  unfolding clean_up
  clean_up_ends T tracer meter s =
      let s1 = (S.handle shutdown_tracer s).1 in
      ground (
        arith,
        T.on_shutdown_tracer s,
        tracer s,
        T.on_shutdown_meter s1,
        meter s1,
        T.shutdown_meter_keeps s1,
      )
