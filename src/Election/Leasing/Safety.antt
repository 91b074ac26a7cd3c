-- ===== src/Election/Leasing/Safety.antt =====
-- At most one leader for a lock while the clock runs, over any store that keeps the contract of
-- Election/Leasing.antt.
use quorum_quest.Prelude.{
  ℕ, ◌==◌, ==_iff, ◌≤◌, IsInt32, ℤ, pos, ltb_ℤ, true, false, Bool-cases, String, Option, List, [],
  ◌∷◌, ◌≡◌, subst, sym, ◌∙◌, inl, inr, false≢true, if◌then◌else◌,
}
use quorum_quest.Program.{Server}
use quorum_quest.Client.{Client, to_seconds}
use quorum_quest.Service.{LockStore}
use quorum_quest.Election.{Delivery, Action, acquires, releases, ticks, update, act, step}
use quorum_quest.Election.Safety.{same_update}
use quorum_quest.Election.Leasing.{
  TimedSystem, timed_step, timed_run, leased_after, Forward, LeadsInLease, IsLeasing,
}
use quorum_quest.Election.Leasing.Acts.{
  TimedActs, try_acquire-TimedActs, release-TimedActs, tick-TimedActs,
}
use quorum_quest.Election.Leasing.Calls.{LeadsInLease-later, LeadsInLease-kept}

module _ {Req : Type 0} {Rep : Req → Type 0} (S : Server Req Rep) (store : ℕ → LockStore Req Rep)
    (pass : ℕ → S.State → S.State) (lease : ℤ → ℤ)
    (Leased : ℕ → S.State → String → String → String → ℤ → Type 0) (Sound : S.State → Type 0)
    (L : IsLeasing S store pass lease Leased Sound) (metric : Option String) where
  abbrev Leads : ℕ → Client → ℤ → S.State → Type 0
  Leads = LeadsInLease S store pass lease Leased Sound

  abbrev until_after : ℕ → Delivery → Client → ℤ → ℤ
  until_after = leased_after S store pass lease

  -- What holds of the system at the moment `now`.
  record IsTimely (now : ℕ) (t : TimedSystem S.State) : Type 0 where
    distinct : (i j : ℕ) → (t.system.clients i).id ≡ (t.system.clients j).id → i ≡ j
    fits : (i : ℕ) → IsInt32 (to_seconds (t.system.clients i).ttl)
    well : Sound t.system.database
    leads : (j : ℕ) → Leads now (t.system.clients j) (t.leased_until j) t.system.database

  abbrev passed : ℕ → TimedSystem S.State → TimedSystem S.State
  passed now t = record t { system = record t.system { database = pass now t.system.database } }

  IsTimely-later :
      (m n : ℕ) (t : TimedSystem S.State) → m ≤ n → IsTimely m t → IsTimely n (passed n t)
  IsTimely-later m n t h timely = record {
    distinct = timely.distinct;
    fits = timely.fits;
    well = L.pass_sound n t.system.database timely.well;
    leads = λ j.
        LeadsInLease-later S store pass lease Leased Sound L m n (t.system.clients j)
          (t.leased_until j) t.system.database h (timely.leads j);
  }

  -- The system after the call of client `i`.
  abbrev after_call :
      ℕ → ℕ → Delivery → Client × S.State → TimedSystem S.State → TimedSystem S.State
  after_call now i d (p, st') t = record {
    system = act S (store now) metric i (p, st') t.system;
    leased_until = λ j.
        if i == j
        then until_after now d (update t.system.clients i p j) (t.leased_until j)
        else t.leased_until j;
  }

  after_call-IsTimely :
      (now i : ℕ) (d : Delivery) (p : Client) (st' : S.State) (t : TimedSystem S.State)
      → TimedActs S store pass lease Leased Sound L metric now d
          (t.system.clients i)
          (t.leased_until i)
          t.system.database
          (p, st')
      → IsTimely now t
      → IsTimely now (after_call now i d (p, st') t)
  unfolding act
  after_call-IsTimely now i d p st' t (same, well, own, others) timely = record {
    distinct = λ j k e. timely.distinct j k (
        sym (same_update t.system.clients i p (λ q. q.id) same.0 j)
        ∙ e
        ∙ same_update t.system.clients i p (λ q. q.id) same.0 k);
    fits = λ j. rw (same_update t.system.clients i p (λ q. q.ttl) same.3 j) (timely.fits j);
    well = well;
    leads = λ j. elim (Bool-cases (i == j)) [
      | inl e ↦ rw e (rw (sym ((==_iff i j).0 e)) own)
      | inr n ↦ rw n (
          LeadsInLease-kept S store pass lease Leased Sound now (t.system.clients j)
            (t.system.clients i).id (t.leased_until j) t.system.database st'
            (λ e. false≢true (sym n ∙ (==_iff i j).1 (sym (timely.distinct j i e)))) others
            (timely.leads j))
    ];
  }

  timed_step-IsTimely :
      (m now : ℕ) (a : Action) (t : TimedSystem S.State)
      → m ≤ now
      → IsTimely m t
      → IsTimely now (timed_step S store pass lease metric now a t)
  unfolding timed_step step
  timed_step-IsTimely m now (acquires i d) t h timely =
      let at_now = IsTimely-later m now t h timely in
      after_call-IsTimely now i d _ _ (passed now t)
        (try_acquire-TimedActs S store pass lease Leased Sound L metric now (t.system.clients i) d
          (t.leased_until i) t.system.database (timely.fits i) timely.well (at_now.leads i))
        at_now
  timed_step-IsTimely m now (releases i d) t h timely =
      let at_now = IsTimely-later m now t h timely in
      after_call-IsTimely now i d _ _ (passed now t)
        (release-TimedActs S store pass lease Leased Sound L metric now (t.system.clients i) d
          (t.leased_until i) t.system.database (timely.fits i) timely.well (at_now.leads i))
        at_now
  timed_step-IsTimely m now (ticks i d) t h timely =
      let at_now = IsTimely-later m now t h timely in
      after_call-IsTimely now i d _ _ (passed now t)
        (tick-TimedActs S store pass lease Leased Sound L metric now (t.system.clients i) d
          (t.leased_until i) t.system.database (timely.fits i) timely.well (at_now.leads i))
        at_now

  timed_run-IsTimely :
      (actions : List (ℕ × Action)) (first last : ℕ) (t : TimedSystem S.State)
      → Forward first actions last
      → IsTimely first t
      → IsTimely last (passed last (timed_run S store pass lease metric actions t))
  unfolding timed_run
  timed_run-IsTimely [] first last t forward timely = IsTimely-later first last t forward timely
  timed_run-IsTimely ((now, a) ∷ rest) first last t forward timely =
      timed_run-IsTimely rest now last (timed_step S store pass lease metric now a t) forward.1
        (timed_step-IsTimely first now a t forward.0 timely)

  -- Over a store that leases: clients with names of their own and TTLs of so many seconds as an int32
  -- counts, none of which leads at the start. After any calls of any of them, at moments that do not go
  -- back and with requests and answers lost, two clients that both count themselves leader of one
  -- lock, and are both still within the lease that their last answered call gave them, are the same
  -- client. Leases run out meanwhile, and locks are taken over. Each call's requests to the database
  -- follow one another, at the moment of the call.
  pub one_leased_leader :
      (actions : List (ℕ × Action)) (first last : ℕ) (t : TimedSystem S.State)
      → Forward first actions last
      → ((i j : ℕ) → (t.system.clients i).id ≡ (t.system.clients j).id → i ≡ j)
      → ((i : ℕ) → IsInt32 (to_seconds (t.system.clients i).ttl))
      → ((i : ℕ) → (t.system.clients i).is_leader ≡ false)
      → Sound t.system.database
      → (i j : ℕ)
      → let final = timed_run S store pass lease metric actions t in
        let p = final.system.clients i in
        let q = final.system.clients j in
        p.is_leader ≡ true
        → q.is_leader ≡ true
        → ltb_ℤ (final.leased_until i) (pos last) ≡ false
        → ltb_ℤ (final.leased_until j) (pos last) ≡ false
        → p.service ≡ q.service
        → p.domain ≡ q.domain
        → i ≡ j
  one_leased_leader actions first last t forward distinct fits none_leads well i j li lj vi vj
        same_service same_domain =
      let timely = timed_run-IsTimely actions first last t forward (record {
        distinct = distinct;
        fits = fits;
        well = well;
        leads = λ j l. absurd (false≢true (sym (none_leads j) ∙ l));
      }) in
      let final = passed last (timed_run S store pass lease metric actions t) in
      let p = final.system.clients i in
      let q = final.system.clients j in
      timely.distinct i j (
        L.one_holder last final.system.database p.service p.domain p.id q.id (final.leased_until i)
          (final.leased_until j) ((timely.leads i li).1 vi)
          (subst (λ u. Leased last final.system.database u p.domain q.id (final.leased_until j))
            (sym same_service)
            (subst (λ e. Leased last final.system.database q.service e q.id (final.leased_until j))
              (sym same_domain) ((timely.leads j lj).1 vj))))
