-- ===== src/Example/Cluster.antt =====
-- client/go/quorum-quest-client/example/main.go: many such processes against one server. Each client's
-- callbacks run, in their order, before the next call.
use quorum_quest.Prelude.{
  ℕ, ◌==◌, IsInt32, Bool, true, false, String, Option, some, List, [], ◌∷◌, ◌≡◌, refl, sym, subst,
  ◌∙◌, ap, arith, if◌then◌else◌, Bool-cases, inl, inr,
}
use quorum_quest.Program.{Server, execute}
use quorum_quest.Client.{Client, lock_request, release_request, to_seconds}
use quorum_quest.Client.Notifications as Notifications
use quorum_quest.Client.Notifications.{replay, releases_answered, step-replay}
use quorum_quest.Service.{LockStore, Error}
use quorum_quest.Service
use quorum_quest.Service.Handlers.{serving, release_lock-serving}
use quorum_quest.Election.{
  Delivery, arrives, request_lost, answer_lost, Action, acquires, releases, ticks, caller, System,
  answer,
}
use quorum_quest.Election
use quorum_quest.Election.Contract.{IsSafe}
use quorum_quest.Election.Safety.{one_leader}
use quorum_quest.Example.{ExampleCallbacks, deliver, no_tasks}
use quorum_quest.Example.Tasks.{has_tasks, deliver-replay}

-- The processes by the numbers of their clients.
pub record Cluster (State : Type 0) : Type 0 where
  pub system : System State
  pub tasks : ℕ → ExampleCallbacks

abbrev update_tasks : (ℕ → ExampleCallbacks) → ℕ → ExampleCallbacks → ℕ → ExampleCallbacks
update_tasks ts i c j = if i == j then c else ts j

-- The answer to every release arrives.
abbrev pub releases_arrive : List Action → Bool
releases_arrive [] = true
releases_arrive (releases i arrives ∷ rest) = releases_arrive rest
releases_arrive (releases i request_lost ∷ rest) = false
releases_arrive (releases i answer_lost ∷ rest) = false
releases_arrive (acquires i d ∷ rest) = releases_arrive rest
releases_arrive (ticks i d ∷ rest) = releases_arrive rest

module _ {Req : Type 0} {Rep : Req → Type 0} (S : Server Req Rep) (store : LockStore Req Rep)
    (metric : Option String) where
  -- The call of a client as a step of its history.
  abbrev call_of : Action → System S.State → Notifications.Step
  call_of (acquires i d) sys =
      let q = sys.clients i in
      let (r, _) =
        execute S (Service.try_acquire_lock metric (serving store) (lock_request q)) sys.database in
      Notifications.acquires (λ _. answer d r)
  call_of (releases i d) sys =
      let q = sys.clients i in
      let (r, _) =
        execute S (Service.release_lock metric (serving store) (release_request q)) sys.database in
      Notifications.releases (λ _. answer d r)
  call_of (ticks i d) sys =
      let q = sys.clients i in
      let (r, _) =
        execute S (Service.keep_alive metric (serving store) (lock_request q)) sys.database in
      Notifications.ticks (λ _. answer d r)

  unfoldable pub step : Action → Cluster S.State → Cluster S.State
  step a c =
      let i = caller a in
      let (_, es) = Notifications.step (call_of a c.system) (c.system.clients i) in
      record {
        system = Election.step S store metric a c.system;
        tasks = update_tasks c.tasks i (deliver es (c.tasks i));
      }

  unfoldable pub run : List Action → Cluster S.State → Cluster S.State
  unfolding step
  run [] c = c
  run (a ∷ rest) c = run rest (step a c)

  run-system :
      (actions : List Action) (c : Cluster S.State)
      → (run actions c).system ≡ Election.run S store metric actions c.system
  unfolding run step Election.run
  run-system [] c = refl
  run-system (a ∷ rest) c = run-system rest (step a c)

  -- The call changes its client as the election says, and no other client.
  step-clients :
      (a : Action) (sys : System S.State) (k : ℕ)
      → (Election.step S store metric a sys).clients k ≡ (
          if caller a == k
          then (Notifications.step (call_of a sys) (sys.clients (caller a))).0
          else sys.clients k)
  unfolding Election.step Election.act Election.try_acquire Election.release Election.tick
  step-clients (acquires i d) sys k = refl
  step-clients (releases i d) sys k = refl
  step-clients (ticks i d) sys k = refl

  release_answered :
      (q : Client) (st : S.State)
      → Notifications.is_answered (
          answer arrives
            (execute S (Service.release_lock metric (serving store) (release_request q)) st).0)
        ≡ true
  release_answered q st = rw (release_lock-serving S store st metric (release_request q)) refl

  call-replay :
      (a : Action) (sys : System S.State)
      → releases_arrive (a ∷ []) ≡ true
      → let (q', es) = Notifications.step (call_of a sys) (sys.clients (caller a)) in
        replay (sys.clients (caller a)).is_leader es ≡ some q'.is_leader
  call-replay (acquires i d) sys h = step-replay (call_of (acquires i d) sys) (sys.clients i) refl
  call-replay (releases i arrives) sys h =
      step-replay (call_of (releases i arrives) sys) (sys.clients i)
        (ground (arith, release_answered (sys.clients i) sys.database))
  call-replay (releases i request_lost) sys h = ground arith
  call-replay (releases i answer_lost) sys h = ground arith
  call-replay (ticks i d) sys h = step-replay (call_of (ticks i d) sys) (sys.clients i) refl

  -- The tasks of each process run if and only if its client leads.
  pub record IsInStep (c : Cluster S.State) : Type 0 where
    pub in_step : (k : ℕ) → has_tasks (c.tasks k) ≡ (c.system.clients k).is_leader

  delivered :
      (a : Action) (c : Cluster S.State)
      → releases_arrive (a ∷ []) ≡ true
      → IsInStep c
      → let (q', es) = Notifications.step (call_of a c.system) (c.system.clients (caller a)) in
        has_tasks (deliver es (c.tasks (caller a))) ≡ q'.is_leader
  delivered a c h s =
      let (q', es) = Notifications.step (call_of a c.system) (c.system.clients (caller a)) in
      deliver-replay es (c.tasks (caller a)) q'.is_leader (
        subst (λ b. replay b es ≡ some q'.is_leader) (sym (s.in_step (caller a)))
          (call-replay a c.system h))

  pub step-IsInStep :
      (a : Action) (c : Cluster S.State)
      → releases_arrive (a ∷ []) ≡ true
      → IsInStep c
      → IsInStep (step a c)
  unfolding step
  step-IsInStep a c h s = record {
    in_step = λ k. elim (Bool-cases (caller a == k)) [
      | inl own ↦ rw (step-clients a c.system k, own) (delivered a c h s)
      | inr other ↦ rw (step-clients a c.system k, other) (s.in_step k)
    ];
  }

  pub arrive_head :
      (a : Action) (rest : List Action)
      → releases_arrive (a ∷ rest) ≡ true
      → (releases_arrive (a ∷ []) ≡ true) × (releases_arrive rest ≡ true)
  arrive_head (acquires i d) rest h = (refl, h)
  arrive_head (releases i arrives) rest h = (refl, h)
  arrive_head (releases i request_lost) rest h = ground arith
  arrive_head (releases i answer_lost) rest h = ground arith
  arrive_head (ticks i d) rest h = (refl, h)

  run-IsInStep :
      (actions : List Action) (c : Cluster S.State)
      → releases_arrive actions ≡ true
      → IsInStep c
      → IsInStep (run actions c)
  unfolding run
  run-IsInStep [] c h s = s
  run-IsInStep (a ∷ rest) c h s =
      run-IsInStep rest (step a c) (arrive_head a rest h).1
        (step-IsInStep a c (arrive_head a rest h).0 s)

  module _ (holder : S.State → String → String → Option String) (safe : IsSafe S store holder) where
    -- Processes whose clients have names of their own, none of which leads or runs tasks at the start,
    -- over a store that keeps the contract: after any calls of any of them in any order, with requests
    -- and answers lost but for those of releases, two processes that run the tasks of leaders of one
    -- lock are the same process. Each call's requests to the database follow one another, each
    -- callback runs before the next call, and no lease runs out.
    pub one_runs_tasks :
        (actions : List Action) (sys : System S.State)
        → releases_arrive actions ≡ true
        → ((i j : ℕ) → (sys.clients i).id ≡ (sys.clients j).id → i ≡ j)
        → ((i : ℕ) → IsInt32 (to_seconds (sys.clients i).ttl))
        → ((i : ℕ) → (sys.clients i).is_leader ≡ false)
        → (i j : ℕ)
        → let c = run actions (record { system = sys; tasks = λ k. no_tasks }) in
          has_tasks (c.tasks i) ≡ true
          → has_tasks (c.tasks j) ≡ true
          → (c.system.clients i).service ≡ (c.system.clients j).service
          → (c.system.clients i).domain ≡ (c.system.clients j).domain
          → i ≡ j
    one_runs_tasks actions sys arrive distinct fits none_leads i j ti tj same_service same_domain =
        let c : Cluster S.State = record { system = sys; tasks = λ k. no_tasks } in
        let followed =
          run-IsInStep actions c arrive (record { in_step = λ k. sym (none_leads k) }) in
        let same = run-system actions c in
        one_leader S store holder safe metric actions sys distinct fits none_leads i j
          (ap (λ s. (s.clients i).is_leader) (sym same) ∙ sym (followed.in_step i) ∙ ti)
          (ap (λ s. (s.clients j).is_leader) (sym same) ∙ sym (followed.in_step j) ∙ tj)
          (subst (λ s. (s.clients i).service ≡ (s.clients j).service) same same_service)
          (subst (λ s. (s.clients i).domain ≡ (s.clients j).domain) same same_domain)
