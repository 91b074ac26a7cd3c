-- ===== src/Observability/Tests.antt =====
-- Runs of internal/observability, and the witnesses. The SDK here answers everything, but for the metric
-- exporter.
use quorum_quest.Prelude.{String, List, [], ◌∷◌, ◌++◌, ◌≡◌, refl}
use quorum_quest.Program.{execute}
use quorum_quest.Config.Loading.{Observability}
use quorum_quest.Observability.{attributes_from_tags, init_provider}
use quorum_quest.Observability.Tags.{tags_of, attributes_from_tags-tags_of}
use quorum_quest.Observability.Memory.{sdk, state, sdk-IsTelemetry, stopped}
use quorum_quest.Observability.Telemetry.{Leaves, init_provider-Leaves}

abbrev attributes : List (String × String)
attributes = ("method", "TryAcquireLock") ∷ ("status", "OK") ∷ []

attributes_from_tags-tags_of_example :
    (attributes_from_tags (tags_of attributes) ≡ attributes)
    × (attributes_from_tags (tags_of attributes ++ ("alone" ∷ [])) ≡ attributes)
attributes_from_tags-tags_of_example = attributes_from_tags-tags_of attributes "alone"

abbrev config : Observability
config = record {
  service_name = "quorum-quest";
  service_version = "0.1.0";
  environment = "development";
  otel_endpoint = "";
}

init_provider-Leaves_example :
    Leaves sdk state
      (execute sdk (init_provider config) stopped).0
      (execute sdk (init_provider config) stopped).1
init_provider-Leaves_example =
    init_provider-Leaves sdk state sdk-IsTelemetry config stopped refl refl
