-- ===== src/Main/Telemetry.antt =====
-- cmd/quorum-quest-service/main.go over `InitProvider` of internal/observability/observability.go: what of
-- the telemetry runs when the start-up is over, and whether a deferred call ends it.
use quorum_quest.Prelude.{
  String, Bool, true, false, ◌&&◌, ◌||◌, Option, none, some, List, [], ◌∷◌, ◌≡◌, refl, ap, sym, ◌∙◌,
}
use quorum_quest.Program.{Result, ok, Server, execute}
use quorum_quest.Config.Loading.{Backend, StoreConfig, GlobalConfig, Observability}
use quorum_quest.Observability.{
  Request, Reply, InitError, resource_failed, trace_exporter_failed, metric_exporter_failed,
  init_provider,
}
use quorum_quest.Observability.Telemetry.{Running, IsTelemetry, Leaves, init_provider-Leaves}
use quorum_quest.Main.{
  select_backend, Deferred, cancel_context, close_loader, clean_up_telemetry, set_up,
}
use quorum_quest.Main.Startup.{is_none, is_ready, deferred, opened, set_up-deferred}

abbrev pub cleans_up : List Deferred → Bool
cleans_up [] = false
cleans_up (clean_up_telemetry ∷ ds) = true
cleans_up (close_loader ∷ ds) = cleans_up ds
cleans_up (cancel_context ∷ ds) = cleans_up ds

abbrev pub is_metric_failure : Option InitError → Bool
is_metric_failure (some (metric_exporter_failed m)) = true
is_metric_failure _ = false

-- The error that `main` prints.
abbrev pub error_of : (InitError → String) → Option InitError → Option String
error_of describe none = none
error_of describe (some e) = some (describe e)

module _ (S : Server Request Reply) (running : S.State → Running) (T : IsTelemetry S running)
    (describe : InitError → String) (metrics : Observability → Option String) (s : S.State) where
  abbrev pub provider : Observability → Option String
  provider o = error_of describe (execute S (init_provider o) s).0

  -- What runs by how `InitProvider` ends.
  runs_by_end :
      (failed : Option InitError) (r : Running)
      → Leaves S running failed r
      → (r.metering ≡ is_none (error_of describe failed))
        × (r.tracing ≡ (is_none (error_of describe failed) || is_metric_failure failed))
  runs_by_end none r h = (h.1, h.0)
  runs_by_end (some (resource_failed m)) r h = (h.1, h.0)
  runs_by_end (some (trace_exporter_failed m)) r h = (h.1, h.0)
  runs_by_end (some (metric_exporter_failed m)) r h = (h.1, h.0)

  cleans_up-opened : (b : Bool) → cleans_up (opened true b) ≡ b
  cleans_up-opened true = refl
  cleans_up-opened false = refl

  -- For a supported backend whose configuration is loaded, and a logger that is made, where nothing of the
  -- telemetry ran before: past the start-up a call that ends the telemetry is deferred exactly if the
  -- meter provider runs. The tracer provider runs in that case, and in one more, in which no deferred
  -- call would end it: when `InitProvider` failed at the metric exporter. `main` waits exactly if the
  -- call is deferred and the metrics client is made; else it ends by Fatalf.
  pub set_up-telemetry :
      (load : (b : Backend) → Result String (GlobalConfig (StoreConfig b))) (backend_type : String)
      (b : Backend) (c : GlobalConfig (StoreConfig b))
      → select_backend backend_type ≡ some b
      → load b ≡ ok c
      → (running s).tracing ≡ false
      → (running s).metering ≡ false
      → let (failed, s') = execute S (init_provider c.observability) s in
        let outcome = set_up provider metrics (ok backend_type) none load in
        let ends = cleans_up (deferred outcome) in
        (ends ≡ (running s').metering)
        × ((running s').tracing ≡ (ends || is_metric_failure failed))
        × (is_ready outcome ≡ (ends && is_none (metrics c.observability)))
  set_up-telemetry load backend_type b c chosen loaded idle quiet =
      let (ready, calls) = set_up-deferred provider metrics load backend_type b c chosen loaded in
      let (metering, tracing) =
        runs_by_end (execute S (init_provider c.observability) s).0
          (running (execute S (init_provider c.observability) s).1)
          (init_provider-Leaves S running T c.observability s idle quiet) in
      let ends = ap cleans_up calls ∙ cleans_up-opened (is_none (provider c.observability)) in
      (
        ends ∙ sym metering,
        tracing
            ∙ ap (λ e. e || is_metric_failure (execute S (init_provider c.observability) s).0)
                (sym ends),
        ready ∙ ap (λ e. e && is_none (metrics c.observability)) (sym ends),
      )
