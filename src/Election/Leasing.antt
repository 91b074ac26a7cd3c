-- ===== src/Election/Leasing.antt =====
-- Elections while the clock runs, over any store of internal/store/lock_store.go that keeps the contract
-- below. An action comes with the moment that the clock shows. For each client the system keeps, beside
-- what the client itself does, the moment until which the last call that was answered to it leases it.
pub mod Calls
pub mod Acts
pub mod Table
pub mod OnDynamo
pub mod OnRedis
pub mod Safety
mod Tests
use quorum_quest.Prelude.{
  ℕ, ◌==◌, ◌≤◌, ℤ, pos, plus, ltb_ℤ, IsInt32, is_negative, Bool, true, false, String, Option, List,
  [], ◌∷◌, ◌≡◌, ◌≢◌, if◌then◌else◌,
}
use quorum_quest.Program.{Server, execute}
use quorum_quest.Client.{Client, to_seconds}
use quorum_quest.Service.{LockStore}
use quorum_quest.Election.{
  Delivery, arrives, request_lost, answer_lost, Action, acquires, releases, ticks, caller, System,
  step,
}

pub record TimedSystem (State : Type 0) : Type 0 where
  pub system : System State
  pub leased_until : ℕ → ℤ

abbrev pub delivery : Action → Delivery
delivery (acquires i d) = d
delivery (releases i d) = d
delivery (ticks i d) = d

-- The moments, from the first one to the last one, do not go back.
abbrev pub Forward : ℕ → List (ℕ × Action) → ℕ → Type 0
Forward first [] last = first ≤ last
Forward first ((now, a) ∷ rest) last = (first ≤ now) × Forward now rest last

module _ {Req : Type 0} {Rep : Req → Type 0} (S : Server Req Rep) (store : ℕ → LockStore Req Rep)
    (pass : ℕ → S.State → S.State) (lease : ℤ → ℤ) where
  -- A client that leads past an answer is leased from then on.
  abbrev pub leased_after : ℕ → Delivery → Client → ℤ → ℤ
  leased_after now arrives q until =
      if q.is_leader then plus now (lease (to_seconds q.ttl)) else until
  leased_after now request_lost q until = until
  leased_after now answer_lost q until = until

  -- The clock goes on to the moment, and the call is made.
  unfoldable pub timed_step : Option String → ℕ → Action → TimedSystem S.State → TimedSystem S.State
  timed_step metric now a t =
      let sys =
        step S (store now) metric a (record t.system { database = pass now t.system.database }) in
      record {
        system = sys;
        leased_until = λ j.
            if caller a == j
            then leased_after now (delivery a) (sys.clients j) (t.leased_until j)
            else t.leased_until j;
      }

  unfoldable pub timed_run :
      Option String → List (ℕ × Action) → TimedSystem S.State → TimedSystem S.State
  timed_run metric [] t = t
  timed_run metric ((now, a) ∷ rest) t = timed_run metric rest (timed_step metric now a t)

  -- What a store owes an election in time. `store` is the store at a moment, `pass` takes the database
  -- to a moment, `lease` is the length of a lease by the TTL that is asked for. `Leased now st u e x until`
  -- says that at the moment `now` the lock of service `u` and domain `e` is leased to `x`, at least
  -- until `until`.
  module _ (Leased : ℕ → S.State → String → String → String → ℤ → Type 0)
      (Sound : S.State → Type 0) where
    -- A call of client `a` at a moment takes no lease that runs, and keeps the caller's own if its new
    -- one does not end before it.
    abbrev pub KeepsLeases : ℕ → String → ℤ → S.State → S.State → Type 0
    KeepsLeases now a renewed st st' =
        (u e x : String) (until : ℤ)
        → Leased now st u e x until
        → ltb_ℤ until (pos now) ≡ false
        → (x ≡ a → ltb_ℤ renewed until ≡ false)
        → Leased now st' u e x until

    pub record IsLeasing : Type 0 where
      pub one_holder :
          (now : ℕ) (st : S.State) (u e x y : String) (v w : ℤ)
          → Leased now st u e x v
          → Leased now st u e y w
          → x ≡ y
      pub pass_keeps :
          (now later : ℕ) (st : S.State) (u e x : String) (until : ℤ)
          → now ≤ later
          → Leased now st u e x until
          → ltb_ℤ until (pos later) ≡ false
          → Leased later (pass later st) u e x until
      pub pass_sound : (later : ℕ) (st : S.State) → Sound st → Sound (pass later st)
      pub acquire :
          (now : ℕ) (st : S.State) (service domain a : String) (ttl : ℤ)
          → Sound st
          → IsInt32 ttl
          → let (b, st') = execute S ((store now).try_acquire service domain a ttl) (pass now st) in
            let renewed = plus now (lease ttl) in
            Sound st'
            × (b ≡ true → Leased now st' service domain a renewed)
            × KeepsLeases now a renewed (pass now st) st'
      pub release :
          (now : ℕ) (st : S.State) (service domain a : String)
          → Sound st
          → let (_, st') = execute S ((store now).release service domain a) (pass now st) in
            Sound st'
            × ((u e x : String) (until : ℤ)
                → Leased now (pass now st) u e x until
                → ltb_ℤ until (pos now) ≡ false
                → x ≢ a
                → Leased now st' u e x until)
      pub renew :
          (now : ℕ) (st : S.State) (service domain a : String) (ttl : ℤ)
          → Sound st
          → IsInt32 ttl
          → let (l, st') = execute S ((store now).renew service domain a ttl) (pass now st) in
            let renewed = plus now (lease ttl) in
            Sound st'
            × (is_negative l ≡ false → Leased now st' service domain a renewed)
            × KeepsLeases now a renewed (pass now st) st'

    -- A client that leads holds its lock, while its lease has not run out.
    abbrev pub LeadsInLease : ℕ → Client → ℤ → S.State → Type 0
    LeadsInLease now q until st =
        q.is_leader ≡ true
        → (ltb_ℤ (plus now (lease (to_seconds q.ttl))) until ≡ false)
          × (ltb_ℤ until (pos now) ≡ false → Leased now st q.service q.domain q.id until)
