-- ===== src/Client/Tests.antt =====
-- Runs of the client of client/go/quorum-quest-client/client.go, and the witnesses.
use quorum_quest.Prelude.{
  ℤ, pos, negsuc, times64, Bool, true, false, String, str_dec, Option, none, some, [], ◌∷◌, ◌≡◌,
  refl,
}
use quorum_quest.Program.{Result, ok, err}
use quorum_quest.Lease.{seconds}
use quorum_quest.Redis
use quorum_quest.Client.{
  Client, elected, lost, dialled, no_op, with_client_id, LockRequest, ReleaseRequest, no_remaining,
  lock_request, try_acquire_lock, release_lock, keep_alive, tick, start_keep_alive, stop_keep_alive,
  apply, apply_all, new_client, announce, release_request,
}
use quorum_quest.Client.Leadership.{is_sound, client_sound}
use quorum_quest.Client.Notifications.{acquires, releases, ticks, run, replay, run-replay}

-- The client of service "svc" and domain "d", with a TTL of fifteen seconds.
abbrev leader : Bool → Client
leader b = record {
  running = true;
  ttl = pos 15000000000;
  remaining_lease = pos 15000000000;
  service = "svc";
  domain = "d";
  id = "a";
  stub = dialled "localhost:5050";
  callbacks = no_op;
  is_leader = b;
}

abbrev hasty : Client
hasty = record (leader true) { ttl = pos 500000000 }

abbrev grants : LockRequest → Result String Bool
grants r = ok true

abbrev fails {ℓ} : {A : Type ℓ} → A → Result String ℤ
fails a = err "unavailable"

abbrev renews : LockRequest → Result String ℤ
renews r = ok (seconds r.ttl)

abbrev accepts : ReleaseRequest → Result String (Unit {0})
accepts r = ok tt

refuses : LockRequest → Result String ℤ
refuses r = ok (seconds (negsuc 0))

abbrev undialled : String → Option String
undialled a = none

abbrev redis : Redis.Store
redis = record {
  ttl = pos 15;
  key_prefix = "lock";
  config = record {
    host = "localhost";
    port = pos 6379;
    password = "";
    db = pos 0;
    ttl = pos 15;
    key_prefix = "lock";
    endpoints = [];
    table_name = "locks";
  };
}

-- Elected, kept, lost, elected again and released.
busy_day :
    (run
      (acquires grants ∷ ticks renews ∷ ticks fails ∷ acquires grants ∷ releases accepts ∷ [])
      (leader false)).1
    ≡ elected true ∷ lost ∷ elected true ∷ lost ∷ []
unfolding run try_acquire_lock release_lock keep_alive tick announce lock_request release_request
    times64
busy_day = refl

-- A lease of minus one second ends the leadership with one callback, not two.
one_loss : (tick refuses (leader true)).2 ≡ lost ∷ []
unfolding refuses tick keep_alive lock_request times64
one_loss = refl

client_sound_example :
    let q = leader true in
    (is_sound (try_acquire_lock grants q).1 ≡ true)
    × (is_sound (release_lock accepts q).1 ≡ true)
    × (is_sound (keep_alive renews q).1 ≡ true)
    × (is_sound (tick renews q).1 ≡ true)
    × (is_sound (start_keep_alive q).1 ≡ true)
    × (is_sound (stop_keep_alive q) ≡ true)
client_sound_example = client_sound (leader true) grants accepts renews refl

run-replay_example :
    let (q', es) = run (acquires grants ∷ ticks fails ∷ releases accepts ∷ []) (leader false) in
    replay false es ≡ some q'.is_leader
run-replay_example =
    run-replay (leader false) (acquires grants ∷ ticks fails ∷ releases accepts ∷ []) refl

abbrev named : Client
named = record (leader false) { running = false; ttl = pos 5; remaining_lease = no_remaining }

named_lem :
    new_client undialled "u" "svc" "d" (pos 5) "localhost:5050" (with_client_id "a" ∷ []) ≡ ok named
unfolding new_client apply_all apply str_dec
named_lem = refl
