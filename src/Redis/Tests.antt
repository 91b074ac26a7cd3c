-- ===== src/Redis/Tests.antt =====
-- The Redis store at concrete data.
use quorum_quest.Prelude.{
  pos, true, String, text_ne, none, some, List, [], ◌∷◌, ◌≡◌, refl, ◌≢◌, arith,
}
use quorum_quest.Program.{execute, advance}
use quorum_quest.Lease.{no_lease, acquire, release, renew}
use quorum_quest.Redis.{
  Store, lock_key, resolve_ttl, try_acquire_lock, release_lock, keep_alive, close_store,
}
use quorum_quest.Redis.Mock
use quorum_quest.Redis.Mock.{mock_store_agrees}
use quorum_quest.Redis.Config.{Config, validate}
use quorum_quest.Redis.Memory.{Keyspace, put, memory, held, memory-IsRedis, memory-IsHealthy}
use quorum_quest.Redis.Refinement.{lock_calls_refine}
use quorum_quest.Redis.Races.{release_lock_race, keep_alive_expired}
use quorum_quest.Redis.Setup.{validate_complete, validate_idempotent}
use quorum_quest.Calls.{Call, acquires, releases, renews}
use quorum_quest.Redis.History.{after_all, all_refused, holder_keeps_lock}

abbrev blank : Config
blank = record {
  host = "";
  port = pos 0;
  password = "";
  db = pos 0;
  ttl = pos 0;
  key_prefix = "";
  endpoints = [];
  table_name = "";
}

abbrev store : Store
store = record { ttl = pos 15; key_prefix = "lock"; config = blank }

abbrev free : Keyspace
free j = none

abbrev held_by : String → Keyspace
held_by a = put (lock_key store "svc" "dom") (some a) free

held_by_lem : (a : String) → held_by a (lock_key store "svc" "dom") ≡ some a
held_by_lem a = ground arith

a_ne_b : ◌≢◌ {A = String} "b" "a"
a_ne_b = text_ne "b" "a" refl

small_lease : (resolve_ttl store (pos 0) ≡ pos 15) × (resolve_ttl store (pos 5) ≡ pos 5)
unfolding resolve_ttl
small_lease = (refl, refl)

key_text : lock_key store "svc" "dom" ≡ "lock:svc:dom"
unfolding lock_key
key_text = refl

lock_calls_refine_example :
    (let (r, st') = execute memory (try_acquire_lock store "svc" "dom" "a" (pos 5)) (held_by "a") in
      (r, held st' (lock_key store "svc" "dom"))
      ≡ acquire (held_by "a" (lock_key store "svc" "dom")) "a")
    × (held
          (execute memory (release_lock store "svc" "dom" "a") (held_by "a")).1
          (lock_key store "svc" "dom")
        ≡ release (held_by "a" (lock_key store "svc" "dom")) "a")
    × (let (r, st') = execute memory (keep_alive store "svc" "dom" "a" (pos 5)) (held_by "a") in
        (r ≡ renew (held_by "a" (lock_key store "svc" "dom")) "a" (resolve_ttl store (pos 5)))
        × (held st' (lock_key store "svc" "dom") ≡ held_by "a" (lock_key store "svc" "dom")))
unfolding resolve_ttl
lock_calls_refine_example =
    lock_calls_refine memory held memory-IsRedis memory-IsHealthy store "svc" "dom" "a" (pos 5)
      (omega arith) refl (held_by "a")

release_lock_race_example :
    let (rest, _) = advance memory (release_lock store "svc" "dom" "a") (held_by "a") in
    held (execute memory rest (held_by "b")).1 (lock_key store "svc" "dom") ≡ none
release_lock_race_example =
    release_lock_race memory held memory-IsRedis memory-IsHealthy store "svc" "dom" "a"
      (held_by "a") (held_by "b") "b" (held_by_lem "a") (held_by_lem "b")

keep_alive_expired_example :
    let (rest, _) = advance memory (keep_alive store "svc" "dom" "a" (pos 5)) (held_by "a") in
    (execute memory rest free).0 ≡ no_lease
unfolding resolve_ttl
keep_alive_expired_example =
    keep_alive_expired memory held memory-IsRedis memory-IsHealthy store "svc" "dom" "a" (pos 5)
      (omega arith) refl (held_by "a") free (held_by_lem "a") refl

validate_complete_example :
    ((validate blank).host ≢ "")
    × ((validate blank).port ≢ pos 0)
    × ((validate blank).ttl ≢ pos 0)
    × ((validate blank).key_prefix ≢ "")
    × ((validate blank).table_name ≢ "")
validate_complete_example = validate_complete blank

validate_idempotent_example : validate (validate blank) ≡ validate blank
validate_idempotent_example = validate_idempotent blank

abbrev built : Config → Store
built c = record {
  ttl = (validate c).ttl;
  key_prefix = (validate c).key_prefix;
  config = validate c;
}

abbrev others : List Call
others =
    record { service = "svc"; domain = "dom"; client = "a"; method = acquires (pos 5) }
    ∷ record { service = "svc"; domain = "dom"; client = "a"; method = releases }
    ∷ record { service = "svc"; domain = "dom"; client = "c"; method = renews (pos 9) }
    ∷ []

holder_keeps_lock_example :
    (all_refused memory store (lock_key store "svc" "dom") others (held_by "b") ≡ true)
    × (held (after_all memory store others (held_by "b")) (lock_key store "svc" "dom") ≡ some "b")
holder_keeps_lock_example =
    holder_keeps_lock memory held memory-IsRedis store others (held_by "b") "b"
      (lock_key store "svc" "dom") (held_by_lem "b") (a_ne_b, (a_ne_b, (text_ne "b" "c" refl, tt)))

mock_store_agrees_example :
    (Mock.try_acquire_lock store "svc" "dom" "a" (pos 5)
      ≡ try_acquire_lock store "svc" "dom" "a" (pos 5))
    × (Mock.release_lock store "svc" "dom" "a" ≡ release_lock store "svc" "dom" "a")
    × (Mock.keep_alive store "svc" "dom" "a" (pos 5) ≡ keep_alive store "svc" "dom" "a" (pos 5))
    × (Mock.close_store ≡ close_store)
mock_store_agrees_example = mock_store_agrees store "svc" "dom" "a" (pos 5) refl
