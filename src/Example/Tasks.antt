-- ===== src/Example/Tasks.antt =====
-- client/go/quorum-quest-client/example/main.go: the tasks that the callbacks start and stop.
use quorum_quest.Prelude.{
  ℕ, zero, suc, Bool, true, false, none, some, List, [], ◌∷◌, ◌≡◌, arith, subst,
}
use quorum_quest.Client.{Client, Event, elected, lost}
use quorum_quest.Client.Notifications.{Step, run, replay, releases_answered, run-replay}
use quorum_quest.Example.{
  ExampleCallbacks, start_tasks, stop_tasks, on_leader_elected, on_leader_lost, handle, deliver,
  no_tasks,
}

abbrev pub has_tasks : ExampleCallbacks → Bool
has_tasks c = elim c.leader_tasks_stop [ none ↦ false | some n ↦ true ]

-- The channels below a number, the last one first.
abbrev pub channels_below : ℕ → List ℕ
channels_below zero = []
channels_below (suc n) = n ∷ channels_below n

-- The channel whose tasks run, then those that were closed.
abbrev pub channels_of : ExampleCallbacks → List ℕ
channels_of c = elim c.leader_tasks_stop [ none ↦ c.closed | some n ↦ n ∷ c.closed ]

handle-channels :
    (e : Event) (c : ExampleCallbacks)
    → channels_of c ≡ channels_below c.made
    → channels_of (handle e c) ≡ channels_below (handle e c).made
unfolding handle on_leader_elected on_leader_lost start_tasks stop_tasks
handle-channels (elected leader) c h = ground arith
handle-channels lost c h = ground arith

-- Whatever callbacks come, in whatever order, every channel that was made is closed once, but the
-- one whose tasks run, if this holds before them.
pub deliver-channels :
    (es : List Event) (c : ExampleCallbacks)
    → channels_of c ≡ channels_below c.made
    → channels_of (deliver es c) ≡ channels_below (deliver es c).made
unfolding deliver
deliver-channels [] c h = h
deliver-channels (e ∷ es) c h = deliver-channels es (handle e c) (handle-channels e c h)

handle-replay :
    (e : Event) (es : List Event) (c : ExampleCallbacks) (b : Bool)
    → replay (has_tasks c) (e ∷ es) ≡ some b
    → replay (has_tasks (handle e c)) es ≡ some b
unfolding handle on_leader_elected on_leader_lost start_tasks stop_tasks
handle-replay (elected true) es c b h = ground arith
handle-replay (elected false) es c b h = ground arith
handle-replay lost es c b h = ground arith

pub deliver-replay :
    (es : List Event) (c : ExampleCallbacks) (b : Bool)
    → replay (has_tasks c) es ≡ some b
    → has_tasks (deliver es c) ≡ b
unfolding deliver
deliver-replay [] c b h = ground arith
deliver-replay (e ∷ es) c b h = deliver-replay es (handle e c) b (handle-replay e es c b h)

-- Over any history of lock calls and keep-alives in which no release fails, of a client that does not
-- lead at first, the tasks run in the end if and only if the client leads, where the callbacks run in
-- the order in which they are started.
pub tasks_follow_leadership :
    (q : Client) (xs : List Step)
    → q.is_leader ≡ false
    → releases_answered xs q ≡ true
    → let (q', es) = run xs q in has_tasks (deliver es no_tasks) ≡ q'.is_leader
tasks_follow_leadership q xs follows h =
    deliver-replay (run xs q).1 no_tasks (run xs q).0.is_leader
      (subst (λ b. replay b (run xs q).1 ≡ some (run xs q).0.is_leader) follows (run-replay q xs h))

-- Where the callbacks of a leadership that was won and lost run in the other order, the tasks run on.
pub late_election_runs_on :
    (c : ExampleCallbacks)
    → has_tasks (deliver (elected true ∷ lost ∷ []) c) ≡ false
      × (has_tasks (deliver (lost ∷ elected true ∷ []) c) ≡ true)
unfolding deliver handle on_leader_elected on_leader_lost start_tasks stop_tasks
late_election_runs_on c = ground arith
