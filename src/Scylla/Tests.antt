-- ===== src/Scylla/Tests.antt =====
-- The ScyllaDB store at concrete data.
use quorum_quest.Prelude.{
  ℤ, pos, true, false, String, str_dec, str_eq, if◌then◌else◌, text_ne, none, some, List, [], ◌∷◌,
  ◌≡◌, refl, ◌↔◌, arith,
}
use quorum_quest.Program.{Server, execute}
use quorum_quest.Lease.{seconds}
use quorum_quest.Calls.{Call, acquires, releases, renews}
use quorum_quest.Scylla.{
  Value, Request, Reply, exec, scan, create_session, close, Store, resolve_ttl, parse_consistency,
  quorum, try_acquire_lock, release_lock, keep_alive,
}
use quorum_quest.Scylla.Mock
use quorum_quest.Scylla.Mock.{mock_select_text, mock_delete_text, mock_spelling_agrees}
use quorum_quest.Scylla.Config.{Config, validate}
use quorum_quest.Scylla.Server.{insert_text, select_text, delete_text, client_of, IsPrepared}
use quorum_quest.Scylla.Memory.{
  table, Rows, put_row, memory, kept, memory-IsScylla, memory-IsFresh, memory-IsHealthy,
}
use quorum_quest.Scylla.KeepAlive.{keep_alive_free}
use quorum_quest.Scylla.Setup.{IsConfigured, validate_iff_one_endpoint, parse_consistency_default}
use quorum_quest.Scylla.History.{after_all, some_wins, holder_keeps_row}

abbrev config : Config
config = record {
  host = "h";
  port = pos 9042;
  keyspace = "ks";
  table = "locks";
  ttl = pos 15;
  consistency = "CONSISTENCY_QUORUM";
  endpoints = "h:9042" ∷ [];
}

abbrev store : Store
store = record {
  session = true;
  table_name = "locks";
  keyspace_name = "ks";
  full_table_name = table;
  ttl = pos 15;
  config = config;
  try_acquire_lock_query =
      "INSERT INTO \"ks\".\"locks\" (service, domain, client_id) VALUES (?, ?, ?) IF NOT EXISTS USING TTL ?";
  validate_lock_query =
      "SELECT client_id FROM \"ks\".\"locks\" WHERE service = ? AND domain = ? AND client_id = ? ALLOW FILTERING";
  release_lock_query = "DELETE FROM \"ks\".\"locks\" WHERE service = ? AND domain = ?";
}

store-IsPrepared : IsPrepared store
store-IsPrepared = record { inserts = refl; selects = refl; deletes = refl }

abbrev digits : ℤ → String
digits n = "5"

abbrev free : Rows
free sv d = none

abbrev held_by : String → Rows
held_by a = put_row "svc" "dom" (some (a, pos 60)) free

held_by_lem : (a : String) → held_by a "svc" "dom" ≡ some (a, pos 60)
held_by_lem a = ground arith

held_by-client_of : (a : String) → client_of (held_by a "svc" "dom") ≡ some a
held_by-client_of a = ground arith

granted_free : (execute memory (try_acquire_lock store "svc" "dom" "a" (pos 5)) free).0 ≡ true
unfolding try_acquire_lock str_dec
granted_free = refl

keep_alive_free_example :
    let (lease, st') = execute memory (keep_alive digits store "svc" "dom" "a" (pos 5)) free in
    (lease ≡ seconds (resolve_ttl store (pos 5))) × (client_of (kept st' "svc" "dom") ≡ some "a")
keep_alive_free_example =
    keep_alive_free memory kept store store-IsPrepared memory-IsScylla digits "svc" "dom" "a"
      (pos 5) free memory-IsHealthy refl

validate_iff_one_endpoint_example : (validate config ≡ none) ↔ IsConfigured config
validate_iff_one_endpoint_example = validate_iff_one_endpoint config

parse_consistency_default_example : parse_consistency "LOCAL" ≡ quorum
parse_consistency_default_example =
    parse_consistency_default "LOCAL" (text_ne "LOCAL" "CONSISTENCY_ONE" refl)
      (text_ne "LOCAL" "CONSISTENCY_ALL" refl)

abbrev others : List Call
others =
    record { service = "svc"; domain = "dom"; client = "a"; method = acquires (pos 5) }
    ∷ record { service = "svc"; domain = "dom"; client = "a"; method = releases }
    ∷ record { service = "svc"; domain = "dom"; client = "c"; method = renews (pos 9) }
    ∷ []

holder_keeps_row_example :
    (some_wins memory digits store "svc" "dom" others (held_by "b") ≡ false)
    × (kept (after_all memory digits store others (held_by "b")) "svc" "dom" ≡ some ("b", pos 60))
holder_keeps_row_example =
    holder_keeps_row memory kept store store-IsPrepared memory-IsScylla memory-IsFresh digits others
      (held_by "b") "svc" "dom" "b" (pos 60) (held_by_lem "b")
      (text_ne "b" "a" refl, (text_ne "b" "a" refl, (text_ne "b" "c" refl, tt)))

-- The memory, for the statements as the mocked store spells them.
abbrev respelled : (r : Request) → Rows → Reply r × Rows
respelled (exec q vs) m =
    if str_eq q (mock_delete_text table)
    then memory.handle (exec (delete_text table) vs) m
    else memory.handle (exec q vs) m
respelled (scan q vs) m =
    if str_eq q (mock_select_text table)
    then memory.handle (scan (select_text table) vs) m
    else memory.handle (scan q vs) m
respelled (create_session a c) m = memory.handle (create_session a c) m
respelled close m = memory.handle close m

abbrev spelled_memory : Server Request Reply
spelled_memory = record { State = Rows; handle = respelled }

respelled-insert :
    (vs : List Value) (m : Rows)
    → respelled (exec (insert_text table) vs) m ≡ memory.handle (exec (insert_text table) vs) m
respelled-insert vs m = ground (arith, text_ne (insert_text table) (mock_delete_text table) refl)

respelled-select :
    (vs : List Value) (m : Rows)
    → respelled (scan (mock_select_text table) vs) m ≡ memory.handle (scan (select_text table) vs) m
respelled-select vs m = ground arith

respelled-delete :
    (vs : List Value) (m : Rows)
    → respelled (exec (mock_delete_text table) vs) m ≡ memory.handle (exec (delete_text table) vs) m
respelled-delete vs m = ground arith

mock_spelling_agrees_example :
    (execute spelled_memory
        (Mock.try_acquire_lock (Mock.init_session store) "svc" "dom" "a" (pos 5))
        (held_by "b")
      ≡ execute memory (try_acquire_lock store "svc" "dom" "a" (pos 5)) (held_by "b"))
    × ((execute spelled_memory
          (Mock.release_lock (Mock.init_session store) "svc" "dom" "a")
          (held_by "b")).1
        ≡ (execute memory (release_lock store "svc" "dom" "a") (held_by "b")).1)
    × (execute spelled_memory
          (Mock.keep_alive digits (Mock.init_session store) "svc" "dom" "a" (pos 5))
          (held_by "b")
        ≡ execute memory (keep_alive digits store "svc" "dom" "a" (pos 5)) (held_by "b"))
mock_spelling_agrees_example =
    mock_spelling_agrees memory kept store store-IsPrepared memory-IsScylla respelled
      respelled-insert respelled-select respelled-delete "svc" "dom" "a" (held_by "b") digits
      (pos 5) refl
