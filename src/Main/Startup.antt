-- ===== src/Main/Startup.antt =====
-- cmd/quorum-quest-service/main.go: which backends start, and what is deferred by then.
use quorum_quest.Prelude.{
  String, str_eq, text_ne, Bool, true, false, ◌&&◌, ◌||◌, Option, none, some, List, [], ◌∷◌, ◌++◌,
  ◌≡◌, refl, arith, if◌then◌else◌,
}
use quorum_quest.Program.{Result, ok}
use quorum_quest.Config.{normalize_backend_type}
use quorum_quest.Config.Loading.{Backend, StoreConfig, GlobalConfig, Observability}
use quorum_quest.Service.{new_server}
use quorum_quest.Main.{
  select_backend, Deferred, cancel_context, close_loader, clean_up_telemetry, Outcome, fatal, ready,
  set_up_backend, make_server, set_up_selected, set_up,
}

abbrev pub is_some {ℓ} : {A : Type ℓ} → Option A → Bool
is_some none = false
is_some (some a) = true

-- The service starts for the names "scylla", "scylladb", "dynamo", "dynamodb" and "redis" of a backend,
-- in whatever case and with whatever space `lower` and `trim` take away, and for no other.
pub select_backend-normalize_backend_type :
    (lower trim : String → String) (s : String)
    → let t = lower (trim s) in
      is_some (select_backend (normalize_backend_type lower trim s)) ≡ (
        str_eq t "scylla"
        || str_eq t "scylladb"
        || str_eq t "dynamo"
        || str_eq t "dynamodb"
        || str_eq t "redis")
unfolding select_backend normalize_backend_type
select_backend-normalize_backend_type lower trim s =
    ground (arith, text_ne "dynamodb" "scylladb" refl)

-- The calls deferred once the configuration is loaded or not, and `InitProvider` has succeeded or not.
abbrev pub opened : Bool → Bool → List Deferred
opened loaded telemetry =
    (if loaded && telemetry then clean_up_telemetry ∷ [] else [])
    ++ ((if loaded then close_loader ∷ [] else []) ++ (cancel_context ∷ []))

abbrev pub deferred : Outcome → List Deferred
deferred (fatal m ds) = ds
deferred (ready b c q ds) = ds

abbrev pub is_ready : Outcome → Bool
is_ready (fatal m ds) = false
is_ready (ready b c q ds) = true

abbrev pub is_none {ℓ} : {A : Type ℓ} → Option A → Bool
is_none none = true
is_none (some a) = false

module _ (provider metrics : Observability → Option String) where
  set_up_backend-deferred :
      (b : Backend) (c : GlobalConfig (StoreConfig b))
      → (is_ready (set_up_backend provider metrics b (ok c))
          ≡ (is_none (provider c.observability) && is_none (metrics c.observability)))
        × (deferred (set_up_backend provider metrics b (ok c))
            ≡ opened true (is_none (provider c.observability)))
  unfolding set_up_backend make_server new_server
  set_up_backend-deferred b c = ground arith

  -- For a supported backend whose configuration is loaded, and a logger that is made, `main` waits
  -- exactly if `InitProvider` succeeds and the metrics client is made. The call that ends the
  -- telemetry is deferred exactly if `InitProvider` succeeds.
  pub set_up-deferred :
      (load : (b : Backend) → Result String (GlobalConfig (StoreConfig b))) (backend_type : String)
      (b : Backend) (c : GlobalConfig (StoreConfig b))
      → select_backend backend_type ≡ some b
      → load b ≡ ok c
      → let outcome = set_up provider metrics (ok backend_type) none load in
        (is_ready outcome
          ≡ (is_none (provider c.observability) && is_none (metrics c.observability)))
        × (deferred outcome ≡ opened true (is_none (provider c.observability)))
  unfolding set_up set_up_selected
  set_up-deferred load backend_type b c chosen loaded =
      rw (chosen, loaded) (set_up_backend-deferred b c)
