-- ===== src/Dynamo/Tests.antt =====
-- The DynamoDB store at concrete data.
use quorum_quest.Prelude.{
  pos, is_positive, Bool, true, String, str_dec, text_ne, none, some, List, [], ◌∷◌, ◌≡◌, refl, ◌≢◌,
  ◌<>◌, ◌↔◌, arith, ℕ,
}
use quorum_quest.Prelude.Colon.{no_colon-NoColon}
use quorum_quest.Program.{execute}
use quorum_quest.Lease.{take_timed, drop_timed, extend_timed}
use quorum_quest.Calls.{Call, acquires, releases, renews}
use quorum_quest.Dynamo.{
  lock_item, Store, lock_key, resolve_ttl, try_acquire_lock, release_lock, keep_alive, new_store,
}
use quorum_quest.Dynamo.Mock
use quorum_quest.Dynamo.Mock.{MockStore, mock_store_refuses_holder}
use quorum_quest.Dynamo.Config.{Config, validate}
use quorum_quest.Dynamo.Memory.{
  Tables, store_item, meets, memory, kept, memory-IsDynamo, memory-IsFresh, memory-IsHealthy,
}
use quorum_quest.Dynamo.Leases.{Holds, lock_item-Holds, other_items_kept}
use quorum_quest.Dynamo.Refinement.{Stands, timed_calls_refine}
use quorum_quest.Dynamo.Keys.{primary_key_injective, primary_key_collision}
use quorum_quest.Dynamo.Setup.{IsConfigured, validate_iff, new_store_ready}
use quorum_quest.Dynamo.History.{after_all, all_refused, lease_excludes_others}

abbrev config : Config
config = record {
  region = "eu";
  table = "locks";
  ttl = pos 15;
  endpoints = "localhost:8000" ∷ [];
  profile = "";
  access_key_id = "";
  secret_access_key = "";
}

abbrev store : Store
store = record { table_name = "locks"; ttl = pos 15; config = config }

abbrev empty_tables : Tables
empty_tables t k = none

-- A lock of the client until the moment 100.
abbrev held_by : String → Tables
held_by a =
    store_item "locks" (lock_key "svc" "dom") (some (lock_item (lock_key "svc" "dom") a (pos 100)))
      empty_tables

held_by-Holds : (a : String) → Holds (held_by a "locks" (lock_key "svc" "dom")) a (pos 100)
held_by-Holds a = ground (arith, lock_item-Holds (lock_key "svc" "dom") a (pos 100))

key_text : lock_key "svc" "dom" ≡ "svc:dom"
unfolding lock_key
key_text = refl

validated : validate config ≡ none
unfolding validate
validated = ground (arith, text_ne "eu" "" refl, text_ne "locks" "" refl)

granted_later :
    (execute memory (try_acquire_lock store 101 "svc" "dom" "a" (pos 5)) (held_by "b")).0 ≡ true
unfolding try_acquire_lock str_dec
granted_later = refl

other_items_kept_example :
    (kept
        (execute memory (try_acquire_lock store 7 "svc" "dom" "a" (pos 5)) (held_by "b")).1
        "locks"
        "x"
      ≡ held_by "b" "locks" "x")
    × (kept (execute memory (release_lock store "svc" "dom" "a") (held_by "b")).1 "locks" "x"
        ≡ held_by "b" "locks" "x")
    × (kept
          (execute memory (keep_alive store 7 "svc" "dom" "a" (pos 5)) (held_by "b")).1
          "locks"
          "x"
        ≡ held_by "b" "locks" "x")
unfolding lock_key
other_items_kept_example =
    other_items_kept memory kept meets memory-IsDynamo store 7 "svc" "dom" "a" (pos 5) (held_by "b")
      "x" (text_ne "x" "svc:dom" refl)

timed_calls_refine_example :
    (let (r, st') =
        execute memory (try_acquire_lock store 7 "svc" "dom" "b" (pos 5)) (held_by "b") in
      (r ≡ (take_timed 7 "b" (resolve_ttl store (pos 5)) (some ("b", pos 100))).0)
      × Stands
          (kept st' "locks" (lock_key "svc" "dom"))
          (take_timed 7 "b" (resolve_ttl store (pos 5)) (some ("b", pos 100))).1)
    × Stands
        (kept
          (execute memory (release_lock store "svc" "dom" "b") (held_by "b")).1
          "locks"
          (lock_key "svc" "dom"))
        (drop_timed "b" (some ("b", pos 100)))
    × (let (r, st') = execute memory (keep_alive store 7 "svc" "dom" "b" (pos 5)) (held_by "b") in
        (r ≡ (extend_timed 7 "b" (resolve_ttl store (pos 5)) (some ("b", pos 100))).0)
        × Stands
            (kept st' "locks" (lock_key "svc" "dom"))
            (extend_timed 7 "b" (resolve_ttl store (pos 5)) (some ("b", pos 100))).1)
timed_calls_refine_example =
    timed_calls_refine memory kept meets memory-IsDynamo memory-IsFresh memory-IsHealthy store 7
      "svc" "dom" "b" (pos 5) (held_by "b") (some ("b", pos 100)) (held_by-Holds "b")

primary_key_injective_example : ◌≡◌ {A = String} "svc" "svc" × (◌≡◌ {A = String} "a:b" "a:b")
primary_key_injective_example =
    primary_key_injective "svc" "svc" "a:b" "a:b" (no_colon-NoColon "svc" refl)
      (no_colon-NoColon "svc" refl) refl

primary_key_collision_example :
    (lock_key ("a" <> ":" <> "b") "d" ≡ lock_key "a" ("b" <> ":" <> "d"))
    × ("a" <> ":" <> "b" ≢ "a")
primary_key_collision_example = primary_key_collision "a" "b" "d"

validate_iff_example : (validate config ≡ none) ↔ IsConfigured config
validate_iff_example = validate_iff config

new_store_ready_example :
    (some config ≡ some config)
    × (◌≡◌ {A = Bool} true true)
    × (◌≡◌ {A = String} "locks" "locks")
    × (is_positive (resolve_ttl store (pos 0)) ≡ true)
unfolding new_store validate str_dec
new_store_ready_example = new_store_ready memory (some config) true empty_tables store (pos 0) refl

abbrev others : List (ℕ × Call)
others =
    (7, record { service = "svc"; domain = "dom"; client = "a"; method = acquires (pos 5) })
    ∷ (9, record { service = "svc"; domain = "dom"; client = "a"; method = releases })
    ∷ (100, record { service = "svc"; domain = "dom"; client = "c"; method = renews (pos 9) })
    ∷ []

lease_excludes_others_example :
    (all_refused memory store (lock_key "svc" "dom") others (held_by "b") ≡ true)
    × Holds
        (kept (after_all memory store others (held_by "b")) "locks" (lock_key "svc" "dom"))
        "b"
        (pos 100)
lease_excludes_others_example =
    lease_excludes_others memory kept meets memory-IsDynamo memory-IsFresh store others
      (held_by "b") "b" (lock_key "svc" "dom") (pos 100) (held_by-Holds "b")
      (text_ne "b" "a" refl, refl, (text_ne "b" "a" refl, refl, (text_ne "b" "c" refl, refl, tt)))

abbrev mock_store : MockStore
mock_store = record { table_name = "locks"; ttl = pos 15; config = config; waiting = true }

mock_key : Mock.lock_key "svc" "dom" ≡ lock_key "svc" "dom"
unfolding Mock.lock_key lock_key
mock_key = refl

mock_held : Holds (held_by "a" "locks" (Mock.lock_key "svc" "dom")) "a" (pos 100)
mock_held = rw mock_key (held_by-Holds "a")
