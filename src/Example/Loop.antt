-- ===== src/Example/Loop.antt =====
-- client/go/quorum-quest-client/example/main.go: the process over the turns of its loop and of its client's
-- keep-alive goroutine.
use quorum_quest.Prelude.{some, Bool, true, false, ℤ, String, Option, List, [], ◌∷◌, ◌≡◌, arith}
use quorum_quest.Program.{Result, ok}
use quorum_quest.Example.{
  start, deliver, handle, on_leader_elected, on_leader_lost, start_tasks, stop_tasks,
}
use quorum_quest.Example.Tasks.{has_tasks}
use quorum_quest.Client.{
  new_client, apply_all, apply, announce, LockRequest, ReleaseRequest, try_acquire_lock,
  release_lock, keep_alive, tick, start_keep_alive, stop_keep_alive, close_client,
}
use quorum_quest.Example.{Process, status_tick, keep_alive_tick, shut_down}

-- A turn of the process, with what the server would answer.
pub data Turn : Type 0 where
  checks : (LockRequest → Result String Bool) → Turn
  refreshes : (LockRequest → Result String ℤ) → Turn

unfoldable pub turn : Turn → Process → Process
turn (checks send) p = status_tick send p
turn (refreshes send) p = keep_alive_tick send p

unfoldable pub turns : List Turn → Process → Process
unfolding turn
turns [] p = p
turns (x ∷ xs) p = turns xs (turn x p)

-- `StartKeepAlive` was called, and its goroutine has returned.
pub record IsAbandoned (p : Process) : Type 0 where
  pub started : p.client.running ≡ true
  pub ended : p.keeping ≡ false

turn-IsAbandoned : (x : Turn) (p : Process) → IsAbandoned p → IsAbandoned (turn x p)
unfolding turn status_tick keep_alive_tick try_acquire_lock start_keep_alive tick keep_alive
turn-IsAbandoned (checks send) p h = record {
  started = ground (arith, h.started, h.ended);
  ended = ground (arith, h.started, h.ended);
}
turn-IsAbandoned (refreshes send) p h = record {
  started = ground (arith, h.started, h.ended);
  ended = ground (arith, h.started, h.ended);
}

turns-IsAbandoned : (xs : List Turn) (p : Process) → IsAbandoned p → IsAbandoned (turns xs p)
unfolding turns
turns-IsAbandoned [] p h = h
turns-IsAbandoned (x ∷ xs) p h = turns-IsAbandoned xs (turn x p) (turn-IsAbandoned x p h)

keep_alive_tick-IsAbandoned :
    (send : LockRequest → Result String ℤ) (p : Process)
    → p.client.running ≡ true
    → (keep_alive_tick send p).keeping ≡ false
    → IsAbandoned (keep_alive_tick send p)
unfolding keep_alive_tick tick keep_alive
keep_alive_tick-IsAbandoned send p r h = record { started = ground arith; ended = h }

status_tick-abandoned :
    (p : Process)
    → IsAbandoned p
    → ((status_tick (λ r. ok true) p).client.is_leader ≡ true)
      × ((status_tick (λ r. ok true) p).keeping ≡ false)
unfolding status_tick try_acquire_lock start_keep_alive
status_tick-abandoned p h = ground (arith, h.started, h.ended)

-- Once a keep-alive has ended the goroutine that StartKeepAlive started, no turn starts it again,
-- whatever the server answers: a status tick to which the server grants the lock makes the client
-- the leader, with no goroutine that refreshes its lease.
pub keep_alive_never_resumes :
    (p : Process) (send : LockRequest → Result String ℤ) (xs : List Turn)
    → p.client.running ≡ true
    → (keep_alive_tick send p).keeping ≡ false
    → let p' = turns xs (keep_alive_tick send p) in
      (p'.keeping ≡ false)
      × ((status_tick (λ r. ok true) p').client.is_leader ≡ true)
      × ((status_tick (λ r. ok true) p').keeping ≡ false)
keep_alive_never_resumes p send xs r h =
    let h' =
      turns-IsAbandoned xs (keep_alive_tick send p) (keep_alive_tick-IsAbandoned send p r h) in
    (h'.ended, (status_tick-abandoned _ h').0, (status_tick-abandoned _ h').1)

-- Whatever the server answers to the release, the shutdown leaves a client that does not lead, whose
-- keep-alive is stopped.
pub shut_down_ends :
    (send : ReleaseRequest → Result String (Unit {0})) (closed : Option String) (p : Process)
    → ((shut_down send closed p).client.is_leader ≡ false)
      × ((shut_down send closed p).client.running ≡ false)
      × ((shut_down send closed p).keeping ≡ false)
unfolding shut_down release_lock close_client stop_keep_alive
shut_down_ends send closed p = ground arith

-- However `main` is started, once it is in its loop the goroutine runs, and so do the tasks, if and only
-- if its client leads.
pub start_keeps :
    (dial : String → Option String) (uuid : String) (send : LockRequest → Result String Bool)
    (args : List String) (p : Process)
    → start dial uuid send args ≡ some p
    → (p.keeping ≡ p.client.is_leader) × (has_tasks p.tasks ≡ p.client.is_leader)
unfolding start new_client try_acquire_lock start_keep_alive deliver handle on_leader_elected
    on_leader_lost apply_all apply announce start_tasks stop_tasks
start_keeps dial uuid send args p h = ground arith
