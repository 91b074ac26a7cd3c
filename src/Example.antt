-- ===== src/Example.antt =====
-- client/go/quorum-quest-client/example/main.go: a process that runs tasks while its client leads.
-- Each callback runs, in the order in which the client starts them, before anything else happens.
pub mod Tasks
pub mod Order
pub mod Loop
pub mod Session
pub mod Cluster
pub mod Leases
mod Tests
use quorum_quest.Prelude.{
  ℕ, suc, ℤ, pos, Bool, true, false, String, ◌<>◌, Option, none, some, List, [], ◌∷◌, ◌++◌,
  if◌then◌else◌,
}
use quorum_quest.Program.{Result, ok, err}
use quorum_quest.Lease.{seconds}
use quorum_quest.Client.{
  Client, Event, elected, lost, Callbacks, given, ClientOption, with_callbacks, LockRequest,
  ReleaseRequest, Error, try_acquire_lock, release_lock, tick, start_keep_alive, close_client,
  new_client,
}

-- `ExampleCallbacks`. A channel is known by its number: `made` counts the channels that were made,
-- each with one goroutine of `runLeaderTasks`, and `closed` lists those that were closed, the last
-- one first. `none` is the nil channel.
pub record ExampleCallbacks : Type 0 where
  pub leader_tasks_stop : Option ℕ
  pub made : ℕ
  pub closed : List ℕ
  pub printed : List String

start_tasks : ExampleCallbacks → ExampleCallbacks
start_tasks c = elim c.leader_tasks_stop [
  | some n ↦ c
  | none ↦ record c { leader_tasks_stop = some c.made; made = suc c.made }
]

stop_tasks : ExampleCallbacks → ExampleCallbacks
stop_tasks c = elim c.leader_tasks_stop [
  | some n ↦ record c { leader_tasks_stop = none; closed = n ∷ c.closed }
  | none ↦ c
]

abbrev print : String → ExampleCallbacks → ExampleCallbacks
print line c = record c { printed = c.printed ++ (line ∷ []) }

unfoldable pub on_leader_elected : Bool → ExampleCallbacks → ExampleCallbacks
unfolding start_tasks
on_leader_elected leader c =
    if leader
    then start_tasks (print "🎉 This node is now the LEADER!" c)
    else print "⭐ Another node is the leader. Running as follower." c

unfoldable pub on_leader_lost : ExampleCallbacks → ExampleCallbacks
unfolding stop_tasks
on_leader_lost c = stop_tasks (print "❌ Leadership LOST! Stopping leader tasks..." c)

-- What the `select` of `runLeaderTasks` takes. Its lines stand without their variation selectors.
pub data Wake : Type 0 where
  ticked stopped : Wake

abbrev work_loop : List Wake → List String × Bool
work_loop [] = ([], false)
work_loop (stopped ∷ ws) = ("⏹  Leader tasks stopped" ∷ [], true)
work_loop (ticked ∷ ws) =
    let (lines, returned) = work_loop ws in
    ("⚙  Performing leader-specific task..." ∷ lines, returned)

-- `runLeaderTasks`: its lines, and whether it has returned.
unfoldable pub run_leader_tasks : List Wake → List String × Bool
run_leader_tasks ws =
    let (lines, returned) = work_loop ws in ("🚀 Started leader tasks" ∷ lines, returned)

unfoldable pub handle : Event → ExampleCallbacks → ExampleCallbacks
unfolding on_leader_elected on_leader_lost
handle (elected leader) c = on_leader_elected leader c
handle lost c = on_leader_lost c

unfoldable pub deliver : List Event → ExampleCallbacks → ExampleCallbacks
unfolding handle
deliver [] c = c
deliver (e ∷ es) c = deliver es (handle e c)

abbrev pub no_tasks : ExampleCallbacks
no_tasks = record { leader_tasks_stop = none; made = 0; closed = []; printed = [] }

-- The server's address and the service, from the command line.
unfoldable pub arguments : List String → String × String
arguments (program ∷ address ∷ service ∷ rest) = (address, service)
arguments (program ∷ address ∷ []) = (address, "example-service")
arguments _ = ("localhost:5050", "example-service")

-- `keeping` says that the keep-alive goroutine is in its loop; `running` of the client, that
-- `StartKeepAlive` was called and `StopKeepAlive` was not.
pub record Process : Type 0 where
  pub client : Client
  pub keeping : Bool
  pub tasks : ExampleCallbacks

-- `StartKeepAlive`, with its goroutine.
abbrev start_keeping : Process → Result Error (Unit {0}) × Process
start_keeping p =
    let (answer, q) = start_keep_alive p.client in
    elim answer [
      | ok u ↦ (ok tt, record p { client = q; keeping = true })
      | err e ↦ (err e, record p { client = q })
    ]

abbrev acquire : (LockRequest → Result String Bool) → Process → Result Error Bool × Process
acquire send p =
    let (answer, q, es) = try_acquire_lock send p.client in
    (answer, record p { client = q; tasks = deliver es p.tasks })

-- `main` up to its loop: none where it ends by `log.Fatalf`. Lines that are printed are left out here and
-- below.
unfoldable pub start :
    (String → Option String)
    → String
    → (LockRequest → Result String Bool)
    → List String
    → Option Process
start dial uuid send args =
    let (address, service) = arguments args in
    elim (new_client dial uuid service "production" (seconds (pos 15)) address
      (with_callbacks (some (given 0)) ∷ [])) [
        | err e ↦ none
        | ok q ↦ begin (record { client = q; keeping = false; tasks = no_tasks })
      ]
  where
    begin : Process → Option Process
    begin p =
        let (answer, p') = acquire send p in
        let (started, p'') = start_keeping p' in
        elim answer [
          | err e ↦ none
          | ok leader ↦ if leader then elim started [ ok u ↦ some p'' | err e ↦ none ] else some p'
        ]

-- The loop of `main` when the status ticker fires. A client that leads is only reported.
unfoldable pub status_tick : (LockRequest → Result String Bool) → Process → Process
unfolding deliver
status_tick send p =
    let (answer, p') = acquire send p in
    if p.client.is_leader
    then p
    else elim answer [ err e ↦ p' | ok leader ↦ if leader then (start_keeping p').1 else p' ]

-- The goroutine of `StartKeepAlive` when its ticker fires.
unfoldable pub keep_alive_tick : (LockRequest → Result String ℤ) → Process → Process
unfolding deliver
keep_alive_tick send p =
    if p.keeping
    then (let (goes_on, q, es) = tick send p.client in
        record { client = q; keeping = goes_on; tasks = deliver es p.tasks })
    else p

-- The loop of `main` when the context is done, and the deferred `Close` of the client, where it returns;
-- its error is dropped, and so is that of the release.
unfoldable pub shut_down :
    (ReleaseRequest → Result String (Unit {0})) → Option String → Process → Process
shut_down send closed p = close (if p.client.is_leader then released else p)
  where
    released : Process
    released =
        let (answer, q, es) = release_lock send p.client in
        record p { client = q; tasks = deliver es p.tasks }

    close : Process → Process
    close p' = record p' { client = (close_client closed p'.client).1; keeping = false }
