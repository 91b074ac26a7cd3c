-- ===== src/Election.antt =====
-- Several clients of client/go/quorum-quest-client/client.go, each in the state that it keeps, against one
-- server of internal/server/server.go over one store and its database. An action is one call of one
-- client; the request, or the answer to it, may be lost on its way.
pub mod Contract
pub mod Calls
pub mod Safety
pub mod OnRedis
pub mod OnScylla
pub mod Leased
pub mod OnDynamo
pub mod Leasing
mod Samples
mod Tests
use quorum_quest.Prelude.{
  ℕ, ◌==◌, ℤ, Bool, true, false, String, Option, none, some, List, [], ◌∷◌, if◌then◌else◌,
}
use quorum_quest.Program.{Server, Result, ok, err, execute}
use quorum_quest.Client.{Client, lock_request, release_request}
use quorum_quest.Client
use quorum_quest.Service.{LockStore, Error}
use quorum_quest.Service
use quorum_quest.Service.Handlers.{delivered, serving}

pub data Delivery : Type 0 where
  arrives request_lost answer_lost : Delivery

pub data Action : Type 0 where
  acquires releases ticks : ℕ → Delivery → Action

abbrev pub caller : Action → ℕ
caller (acquires i d) = i
caller (releases i d) = i
caller (ticks i d) = i

-- The clients by their numbers.
pub record System (State : Type 0) : Type 0 where
  pub clients : ℕ → Client
  pub database : State

abbrev pub update : (ℕ → Client) → ℕ → Client → ℕ → Client
update cs i q j = if i == j then q else cs j

-- What the client's stub returns, and the database after the call.
abbrev pub answer : {A : Type 0} → Delivery → Result Error A → Result String A
answer arrives r = delivered r
answer request_lost r = err "deadline exceeded"
answer answer_lost r = err "deadline exceeded"

abbrev pub handled : {State : Type 0} → Delivery → State → State → State
handled request_lost before after = before
handled arrives before after = after
handled answer_lost before after = after

module _ {Req : Type 0} {Rep : Req → Type 0} (S : Server Req Rep) (store : LockStore Req Rep)
    (metric : Option String) where
  -- A call of a client: the client and the database after it.
  unfoldable pub try_acquire : Delivery → Client → S.State → Client × S.State
  try_acquire d q st =
      let (r, st') =
        execute S (Service.try_acquire_lock metric (serving store) (lock_request q)) st in
      ((Client.try_acquire_lock (λ _. answer d r) q).1, handled d st st')

  unfoldable pub release : Delivery → Client → S.State → Client × S.State
  release d q st =
      let (r, st') =
        execute S (Service.release_lock metric (serving store) (release_request q)) st in
      ((Client.release_lock (λ _. answer d r) q).1, handled d st st')

  unfoldable pub tick : Delivery → Client → S.State → Client × S.State
  tick d q st =
      let (r, st') = execute S (Service.keep_alive metric (serving store) (lock_request q)) st in
      ((Client.tick (λ _. answer d r) q).1, handled d st st')

  unfoldable pub act : ℕ → Client × S.State → System S.State → System S.State
  act i (q, st) sys = record { clients = update sys.clients i q; database = st }

  unfoldable pub step : Action → System S.State → System S.State
  unfolding act
  step (acquires i d) sys = act i (try_acquire d (sys.clients i) sys.database) sys
  step (releases i d) sys = act i (release d (sys.clients i) sys.database) sys
  step (ticks i d) sys = act i (tick d (sys.clients i) sys.database) sys

  unfoldable pub run : List Action → System S.State → System S.State
  run [] sys = sys
  run (a ∷ rest) sys = run rest (step a sys)
