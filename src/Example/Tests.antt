-- ===== src/Example/Tests.antt =====
-- Runs of the process of client/go/quorum-quest-client/example/main.go, and the witnesses.
use mathlib.Core.List.Perm
use quorum_quest.Prelude.{ℤ, pos, Bool, true, false, String, none, List, [], ◌∷◌, ◌≡◌, ◌↔◌, refl}
use quorum_quest.Program.{Result, ok, err}
use quorum_quest.Lease.{seconds}
use quorum_quest.Client.{
  Client, elected, lost, given, dialled, LockRequest, ReleaseRequest, no_remaining, tick,
  keep_alive, announce, release_lock, try_acquire_lock,
}
use quorum_quest.Client.Notifications.{Step, acquires, releases, ticks, run}
use quorum_quest.Example.{
  Process, arguments, deliver, no_tasks, status_tick, keep_alive_tick, run_leader_tasks, ticked,
  stopped,
}
use quorum_quest.Example.Tasks.{
  has_tasks, channels_of, channels_below, deliver-channels, tasks_follow_leadership,
}
use quorum_quest.Example.Order.{begins, callbacks_in_any_order}
use quorum_quest.Example.Session.{
  Input, signal, status, keep, context_done, session, follow, begin, signalled, session_ends,
}
use quorum_quest.Example.Loop.{checks, refreshes, turns, keep_alive_never_resumes}

abbrev follower : Client
follower = record {
  running = false;
  ttl = seconds (pos 15);
  remaining_lease = no_remaining;
  service = "example-service";
  domain = "production";
  id = "a";
  stub = dialled "localhost:5050";
  callbacks = given 0;
  is_leader = false;
}

abbrev grants : LockRequest → Result String Bool
grants r = ok true

abbrev fails : LockRequest → Result String ℤ
fails r = err "unavailable"

abbrev accepts : ReleaseRequest → Result String (Unit {0})
accepts r = ok tt

abbrev leading : Process
leading = record {
  client = record follower { running = true; is_leader = true };
  keeping = true;
  tasks = no_tasks;
}

two_arguments : arguments ("example" ∷ "host:1" ∷ []) ≡ ("host:1", "example-service")
unfolding arguments
two_arguments = refl

two_ticks : run_leader_tasks (ticked ∷ stopped ∷ ticked ∷ []) ≡ (
  "🚀 Started leader tasks" ∷ "⚙  Performing leader-specific task..." ∷ "⏹  Leader tasks stopped"
      ∷ [],
  true,
)
unfolding run_leader_tasks
two_ticks = refl

deliver-channels_example :
    channels_of (deliver (elected true ∷ lost ∷ elected true ∷ []) no_tasks)
    ≡ channels_below (deliver (elected true ∷ lost ∷ elected true ∷ []) no_tasks).made
deliver-channels_example = deliver-channels (elected true ∷ lost ∷ elected true ∷ []) no_tasks refl

abbrev history : List Step
history = acquires grants ∷ ticks fails ∷ acquires grants ∷ releases accepts ∷ []

tasks_follow_leadership_example :
    has_tasks (deliver (run history follower).1 no_tasks) ≡ (run history follower).0.is_leader
tasks_follow_leadership_example = tasks_follow_leadership follower history refl refl

-- The last election is heard after the loss that follows it.
callbacks_in_any_order_example :
    (has_tasks (deliver (elected true ∷ lost ∷ lost ∷ elected true ∷ []) no_tasks)
      ≡ (run history follower).0.is_leader)
    ↔ (begins (elected true) ≡ begins lost)
unfolding run try_acquire_lock announce tick keep_alive release_lock
callbacks_in_any_order_example =
    callbacks_in_any_order follower history (elected true ∷ lost ∷ elected true ∷ [])
      (elected true ∷ lost ∷ lost ∷ []) lost (elected true) refl refl refl
      (Perm.cons (elected true) (Perm.cons lost (Perm.swap (elected true) lost [])))

failed_keep_alive : (keep_alive_tick fails leading).keeping ≡ false
unfolding keep_alive_tick tick keep_alive
failed_keep_alive = refl

abbrev later : Process
later = turns (checks grants ∷ refreshes fails ∷ []) (keep_alive_tick fails leading)

keep_alive_never_resumes_example :
    (later.keeping ≡ false)
    × ((status_tick (λ r. ok true) later).client.is_leader ≡ true)
    × ((status_tick (λ r. ok true) later).keeping ≡ false)
keep_alive_never_resumes_example =
    keep_alive_never_resumes leading fails (checks grants ∷ refreshes fails ∷ []) refl
      failed_keep_alive

abbrev inputs : List Input
inputs = keep fails ∷ signal ∷ status grants ∷ context_done accepts none ∷ []

ended : (session inputs (begin leading)).returned ≡ true
unfolding session follow
ended = refl

session_ends_example :
    let q = (session inputs (begin leading)).process in
    (signalled inputs ≡ true)
    × (q.client.is_leader ≡ false)
    × (q.client.running ≡ false)
    × (q.keeping ≡ false)
session_ends_example = session_ends inputs leading ended
