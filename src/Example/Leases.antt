-- ===== src/Example/Leases.antt =====
-- client/go/quorum-quest-client/example/main.go: many such processes against one server while the clock
-- runs. Each client's callbacks run, in their order, before the next call.
use quorum_quest.Prelude.{
  ℕ, IsInt32, ℤ, pos, ltb_ℤ, true, false, String, Option, List, [], ◌∷◌, ◌≡◌, refl, sym, subst, ◌∙◌,
  ap,
}
use quorum_quest.Program.{Server}
use quorum_quest.Client.{to_seconds}
use quorum_quest.Service.{LockStore}
use quorum_quest.Election.{Action}
use quorum_quest.Election.Leasing.{TimedSystem, timed_step, timed_run, Forward, IsLeasing}
use quorum_quest.Election.Leasing.Safety.{one_leased_leader}
use quorum_quest.Example.{ExampleCallbacks, no_tasks}
use quorum_quest.Example.Tasks.{has_tasks}
use quorum_quest.Example.Cluster
use quorum_quest.Example.Cluster.{Cluster, releases_arrive, arrive_head, step-IsInStep}

pub record TimedCluster (State : Type 0) : Type 0 where
  pub timed : TimedSystem State
  pub tasks : ℕ → ExampleCallbacks

abbrev pub calls_of : List (ℕ × Action) → List Action
calls_of [] = []
calls_of ((now, a) ∷ rest) = a ∷ calls_of rest

module _ {Req : Type 0} {Rep : Req → Type 0} (S : Server Req Rep) (store : ℕ → LockStore Req Rep)
    (pass : ℕ → S.State → S.State) (lease : ℤ → ℤ) (metric : Option String) where
  -- The processes when the clock has gone on to the moment.
  abbrev at_moment : ℕ → TimedCluster S.State → Cluster S.State
  at_moment now c = record {
    system = record c.timed.system { database = pass now c.timed.system.database };
    tasks = c.tasks;
  }

  unfoldable pub step : ℕ → Action → TimedCluster S.State → TimedCluster S.State
  unfolding Cluster.step
  step now a c = record {
    timed = timed_step S store pass lease metric now a c.timed;
    tasks = (Cluster.step S (store now) metric a (at_moment now c)).tasks;
  }

  unfoldable pub run : List (ℕ × Action) → TimedCluster S.State → TimedCluster S.State
  unfolding step
  run [] c = c
  run ((now, a) ∷ rest) c = run rest (step now a c)

  run-timed :
      (actions : List (ℕ × Action)) (c : TimedCluster S.State)
      → (run actions c).timed ≡ timed_run S store pass lease metric actions c.timed
  unfolding run step timed_run
  run-timed [] c = refl
  run-timed ((now, a) ∷ rest) c = run-timed rest (step now a c)

  -- The tasks of each process run if and only if its client leads.
  abbrev Follows : TimedCluster S.State → Type 0
  Follows c = (k : ℕ) → has_tasks (c.tasks k) ≡ (c.timed.system.clients k).is_leader

  step-Follows :
      (now : ℕ) (a : Action) (c : TimedCluster S.State)
      → releases_arrive (a ∷ []) ≡ true
      → Follows c
      → Follows (step now a c)
  unfolding step timed_step Cluster.step
  step-Follows now a c h f = λ k.
      (step-IsInStep S (store now) metric a (at_moment now c) h (record { in_step = f })).in_step k

  run-Follows :
      (actions : List (ℕ × Action)) (c : TimedCluster S.State)
      → releases_arrive (calls_of actions) ≡ true
      → Follows c
      → Follows (run actions c)
  unfolding run
  run-Follows [] c h f = f
  run-Follows ((now, a) ∷ rest) c h f =
      let (first, others) = arrive_head S (store now) metric a (calls_of rest) h in
      run-Follows rest (step now a c) others (step-Follows now a c first f)

  module _ (Leased : ℕ → S.State → String → String → String → ℤ → Type 0) (Sound : S.State → Type 0)
      (L : IsLeasing S store pass lease Leased Sound) where
    -- Over a store that leases: processes whose clients have names of their own and TTLs of so many
    -- seconds as an int32 counts, none of which leads or runs tasks at the start. After any calls of any
    -- of them, at moments that do not go back, with requests and answers lost but for those of
    -- releases, two processes that run the tasks of leaders of one lock, and are both still within the
    -- lease that their clients' last answered call gave them, are the same process. Leases run out
    -- meanwhile. Each call's requests to the database follow one another, at the moment of the call,
    -- and each callback runs before the next call.
    pub one_leased_process :
        (actions : List (ℕ × Action)) (first last : ℕ) (t : TimedSystem S.State)
        → Forward first actions last
        → releases_arrive (calls_of actions) ≡ true
        → ((i j : ℕ) → (t.system.clients i).id ≡ (t.system.clients j).id → i ≡ j)
        → ((i : ℕ) → IsInt32 (to_seconds (t.system.clients i).ttl))
        → ((i : ℕ) → (t.system.clients i).is_leader ≡ false)
        → Sound t.system.database
        → (i j : ℕ)
        → let c = run actions (record { timed = t; tasks = λ k. no_tasks }) in
          let p = c.timed.system.clients i in
          let q = c.timed.system.clients j in
          has_tasks (c.tasks i) ≡ true
          → has_tasks (c.tasks j) ≡ true
          → ltb_ℤ (c.timed.leased_until i) (pos last) ≡ false
          → ltb_ℤ (c.timed.leased_until j) (pos last) ≡ false
          → p.service ≡ q.service
          → p.domain ≡ q.domain
          → i ≡ j
    one_leased_process actions first last t forward arrive distinct fits none_leads well i j ti tj
          vi vj same_service same_domain =
        let c : TimedCluster S.State = record { timed = t; tasks = λ k. no_tasks } in
        let followed = run-Follows actions c arrive (λ k. sym (none_leads k)) in
        let same = run-timed actions c in
        one_leased_leader S store pass lease Leased Sound L metric actions first last t forward
          distinct fits none_leads well i j
          (ap (λ s. (s.system.clients i).is_leader) (sym same) ∙ sym (followed i) ∙ ti)
          (ap (λ s. (s.system.clients j).is_leader) (sym same) ∙ sym (followed j) ∙ tj)
          (subst (λ s. ltb_ℤ (s.leased_until i) (pos last) ≡ false) same vi)
          (subst (λ s. ltb_ℤ (s.leased_until j) (pos last) ≡ false) same vj)
          (subst (λ s. (s.system.clients i).service ≡ (s.system.clients j).service) same
            same_service)
          (subst (λ s. (s.system.clients i).domain ≡ (s.system.clients j).domain) same same_domain)
