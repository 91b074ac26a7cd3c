-- ===== src/Election/Safety.antt =====
-- At most one leader for a lock, over any store that keeps the contract of Election/Contract.antt.
use quorum_quest.Prelude.{
  ℕ, ◌==◌, ==_iff, IsInt32, true, false, Bool-cases, String, Option, some, List, [], ◌∷◌, ◌≡◌, ◌≢◌,
  refl, ap, sym, ◌∙◌, inl, inr, arith, ◌⊎◌, false≢true,
}
use quorum_quest.Program.{Server}
use quorum_quest.Client.{Client, to_seconds}
use quorum_quest.Service.{LockStore}
use quorum_quest.Election.{Action, acquires, releases, ticks, System, update, act, step, run}
use quorum_quest.Election.Contract.{IsSafe}
use quorum_quest.Election.Calls.{
  leads_held, kept_from, Acts, try_acquire-Acts, release-Acts, tick-Acts,
}

module _ {State : Type 0} (holder : State → String → String → Option String) where
  -- The clients have names of their own and TTLs of so many seconds as an int32 counts, and whoever
  -- leads holds its lock.
  pub record IsSound (sys : System State) : Type 0 where
    pub distinct : (i j : ℕ) → (sys.clients i).id ≡ (sys.clients j).id → i ≡ j
    pub fits : (i : ℕ) → IsInt32 (to_seconds (sys.clients i).ttl)
    pub leads :
        (i : ℕ)
        → let q = sys.clients i in leads_held q (holder sys.database q.service q.domain) ≡ true

module _ (cs : ℕ → Client) (i : ℕ) (p : Client) where
  pub update_cases :
      (j : ℕ) → ((i ≡ j) × (update cs i p j ≡ p)) ⊎ ((i ≢ j) × (update cs i p j ≡ cs j))
  update_cases j = elim (Bool-cases (i == j)) [
    | inl e ↦ inl ((==_iff i j).0 e, rw e refl)
    | inr n ↦ inr (λ e. false≢true (sym n ∙ (==_iff i j).1 e), rw n refl)
  ]

  -- What is the same for the client that calls is the same for all.
  pub same_update {ℓ} :
      {A : Type ℓ} (part : Client → A)
      → part p ≡ part (cs i)
      → (j : ℕ) → part (update cs i p j) ≡ part (cs j)
  same_update part same j = elim (update_cases j) [
    | inl (e, u) ↦ ap part u ∙ same ∙ ap (λ k. part (cs k)) e
    | inr (n, u) ↦ ap part u
  ]

module _ {Req : Type 0} {Rep : Req → Type 0} (S : Server Req Rep) (store : LockStore Req Rep)
    (holder : S.State → String → String → Option String) (safe : IsSafe S store holder)
    (metric : Option String) where
  id_update :
      (sys : System S.State) (i : ℕ) (p : Client)
      → p.id ≡ (sys.clients i).id
      → (j : ℕ) → (update sys.clients i p j).id ≡ (sys.clients j).id
  id_update sys i p same = same_update sys.clients i p (λ q. q.id) same

  act-IsSound :
      (sys : System S.State) (i : ℕ) (p : Client) (st' : S.State)
      → Acts S store holder safe metric (sys.clients i) sys.database (p, st')
      → IsSound holder sys
      → IsSound holder (act S store metric i (p, st') sys)
  unfolding act
  act-IsSound sys i p st' (same, held, keeps) sound = record {
    distinct = λ j k e.
        sound.distinct j k (sym (id_update sys i p same.0 j) ∙ e ∙ id_update sys i p same.0 k);
    fits = λ j. rw (same_update sys.clients i p (λ q. q.ttl) same.3 j) (sound.fits j);
    leads = λ j. elim (update_cases sys.clients i p j) [
      | inl (e, u) ↦ rw u (rw (same.1, same.2) held)
      | inr (n, u) ↦ rw u (
          kept_from (sys.clients j) (sys.clients i).id _ _ (λ e. n (sym (sound.distinct j i e)))
            (keeps (sys.clients j).service (sys.clients j).domain) (sound.leads j))
    ];
  }

  -- Every action keeps the system sound.
  step-IsSound :
      (a : Action) (sys : System S.State)
      → IsSound holder sys
      → IsSound holder (step S store metric a sys)
  unfolding step
  step-IsSound (acquires i d) sys sound =
      act-IsSound sys i _ _
        (try_acquire-Acts S store holder safe metric (sys.clients i) d sys.database (sound.leads i)
          (sound.fits i))
        sound
  step-IsSound (releases i d) sys sound =
      act-IsSound sys i _ _
        (release-Acts S store holder safe metric (sys.clients i) d sys.database (sound.leads i))
        sound
  step-IsSound (ticks i d) sys sound =
      act-IsSound sys i _ _
        (tick-Acts S store holder safe metric (sys.clients i) d sys.database (sound.leads i)
          (sound.fits i))
        sound

  pub run-IsSound :
      (actions : List Action) (sys : System S.State)
      → IsSound holder sys
      → IsSound holder (run S store metric actions sys)
  unfolding run
  run-IsSound [] sys sound = sound
  run-IsSound (a ∷ rest) sys sound =
      run-IsSound rest (step S store metric a sys) (step-IsSound a sys sound)

  start-IsSound :
      (sys : System S.State)
      → ((i j : ℕ) → (sys.clients i).id ≡ (sys.clients j).id → i ≡ j)
      → ((i : ℕ) → IsInt32 (to_seconds (sys.clients i).ttl))
      → ((i : ℕ) → (sys.clients i).is_leader ≡ false)
      → IsSound holder sys
  start-IsSound sys distinct fits none_leads = record {
    distinct = distinct;
    fits = fits;
    leads = λ i. rw (none_leads i) refl;
  }

  some_injective : {x y : String} → ◌≡◌ {A = Option String} (some x) (some y) → x ≡ y
  some_injective e = cc

  leader_holds :
      (q : Client) (held : Option String)
      → leads_held q held ≡ true
      → q.is_leader ≡ true
      → held ≡ some q.id
  leader_holds q held h l = ground arith

  -- Clients with names of their own, none of which leads at the start, over a store that keeps the
  -- contract: after any calls of any of them in any order, with requests and answers lost, two clients
  -- that both count themselves leader of one lock are the same client. Each call's requests to the
  -- database follow one another, and no lease runs out.
  pub one_leader :
      (actions : List Action) (sys : System S.State)
      → ((i j : ℕ) → (sys.clients i).id ≡ (sys.clients j).id → i ≡ j)
      → ((i : ℕ) → IsInt32 (to_seconds (sys.clients i).ttl))
      → ((i : ℕ) → (sys.clients i).is_leader ≡ false)
      → (i j : ℕ) → ((run S store metric actions sys).clients i).is_leader ≡ true
      → ((run S store metric actions sys).clients j).is_leader ≡ true
      → ((run S store metric actions sys).clients i).service
        ≡ ((run S store metric actions sys).clients j).service
      → ((run S store metric actions sys).clients i).domain
        ≡ ((run S store metric actions sys).clients j).domain
      → i ≡ j
  one_leader actions sys distinct fits none_leads i j li lj same_service same_domain =
      let sound = run-IsSound actions sys (start-IsSound sys distinct fits none_leads) in
      let final = run S store metric actions sys in
      sound.distinct i j (
        some_injective (
          sym (leader_holds (final.clients i) _ (sound.leads i) li)
          ∙ rw (same_service, same_domain) (leader_holds (final.clients j) _ (sound.leads j) lj)))
