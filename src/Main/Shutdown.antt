-- ===== src/Main/Shutdown.antt =====
-- cmd/quorum-quest-service/main.go: how the process ends once a signal comes, whatever the goroutine of
-- the server does meanwhile.
use quorum_quest.Prelude.{
  String, Bool, true, false, some, List, [], ◌∷◌, ◌≡◌, ◌⊎◌, inl, inr, refl, arith,
}
use quorum_quest.Service.{Service, LockStore}
use quorum_quest.Main.{Deferred}
use quorum_quest.Main.Process.{
  Starter, made, serving, started, failed, Phase, waiting, signalled, halted, stopped, failed_start,
  End, returned, fatal, panicked, Running, Process, running, over, launch, Step, listens,
  listen_fails, makes_store, store_fails, makes_server, serves, serves_stopped, serves_nil,
  serve_ends, serve_fails, serve_closed, dies, signal, stops_nothing, stops_gracefully,
  closes_store, returns, Reach, here, next,
}

-- In `Serve`, or past it with an error or none.
abbrev pub is_up : Starter → Bool
is_up serving = true
is_up started = true
is_up (failed m) = true
is_up _ = false

abbrev pub is_fatal : End → Bool
is_fatal (fatal m) = true
is_fatal _ = false

module _ {Rq : Type 0} {Rp : Rq → Type 0} (st : LockStore Rq Rp) (ds : List Deferred) where
  -- The server and the stores that are closed, for each place of `main`.
  abbrev Stands : Phase → Service Rq Rp → Bool → List (LockStore Rq Rp) → Type 0
  Stands waiting q halting closed = (q.serving ≡ true) × (q.store ≡ some st) × (closed ≡ [])
  Stands signalled q halting closed = (q.serving ≡ true) × (q.store ≡ some st) × (closed ≡ [])
  Stands halted q halting closed = (halting ≡ true) × (q.store ≡ some st) × (closed ≡ [])
  Stands stopped q halting closed = (halting ≡ true) × (closed ≡ st ∷ [])

  abbrev IsUp : Running Rq Rp → Type 0
  IsUp p = (is_up p.starter ≡ true) × (p.deferred ≡ ds) × Stands p.phase p.server p.halting p.closed

  -- The process is up, or has ended in one of the two ways.
  abbrev IsOrderly : Process Rq Rp → Type 0
  IsOrderly (running p) = IsUp p
  IsOrderly (over e closed) =
      ((e ≡ returned ds) × (closed ≡ st ∷ []))
      ⊎ ((is_fatal e ≡ true) × ((closed ≡ []) ⊎ (closed ≡ st ∷ [])))

  closed_once :
      (at : Phase) (q : Service Rq Rp) (halting : Bool) (closed : List (LockStore Rq Rp))
      → Stands at q halting closed
      → (closed ≡ []) ⊎ (closed ≡ st ∷ [])
  closed_once waiting q halting closed h = inl h.2
  closed_once signalled q halting closed h = inl h.2
  closed_once halted q halting closed h = inl h.2
  closed_once stopped q halting closed h = inr h.1

  dies-IsOrderly :
      (p : Running Rq Rp) (m : String)
      → p.starter ≡ failed m
      → IsUp p
      → IsOrderly (over (failed_start m) p.closed)
  dies-IsOrderly p m h up = inr (refl, closed_once p.phase p.server p.halting p.closed up.2)

  Step-IsOrderly : {p q : Process Rq Rp} → Step p q → IsOrderly p → IsOrderly q
  Step-IsOrderly (listens p h) up = ground arith
  Step-IsOrderly (listen_fails p m h) up = ground arith
  Step-IsOrderly (makes_store p x h) up = ground arith
  Step-IsOrderly (store_fails p m h) up = ground arith
  Step-IsOrderly (makes_server p h) up = ground arith
  Step-IsOrderly (serves p h g k) up = ground arith
  Step-IsOrderly (serves_stopped p h g k) up = ground arith
  Step-IsOrderly (serves_nil p h g) up = ground arith
  Step-IsOrderly (serve_ends p h g) up = ground arith
  Step-IsOrderly (serve_fails p m h g k) up = ground arith
  Step-IsOrderly (serve_closed p h g) up = ground arith
  Step-IsOrderly (dies p m h) up = dies-IsOrderly p m h up
  Step-IsOrderly (signal p h) up = ground arith
  Step-IsOrderly (stops_nothing p h g) up = ground arith
  Step-IsOrderly (stops_gracefully p h g) up = ground arith
  Step-IsOrderly (closes_store p h) up = ground arith
  Step-IsOrderly (returns p h) up = ground arith

  Reach-IsOrderly : {p q : Process Rq Rp} → Reach p q → IsOrderly p → IsOrderly q
  Reach-IsOrderly here h = h
  Reach-IsOrderly (next r x) h = Step-IsOrderly x (Reach-IsOrderly r h)

  -- A process that is in `Serve`, or past it, over a store, and waits for its signal, ends in one of two
  -- ways, in whatever order its goroutines go on: `main` returns past all its deferred calls, and the
  -- store was closed, once; or a failed `Start` ends the process by Fatalf, with the store open, or
  -- closed once, where `Stop` came in between. No method is called of a nil server.
  pub serving_ends_orderly :
      (p : Running Rq Rp) (e : End) (closed : List (LockStore Rq Rp))
      → Reach (running p) (over e closed)
      → is_up p.starter ≡ true
      → p.phase ≡ waiting
      → p.server.serving ≡ true
      → p.server.store ≡ some st
      → p.closed ≡ []
      → p.deferred ≡ ds
      → ((e ≡ returned ds) × (closed ≡ st ∷ []))
        ⊎ ((is_fatal e ≡ true) × ((closed ≡ []) ⊎ (closed ≡ st ∷ [])))
  serving_ends_orderly p e closed reach up waits up_server held none_closed calls =
      Reach-IsOrderly reach (up, calls, rw waits (up_server, held, none_closed))

  -- From the launch: the goroutine gets to its call of `Serve`.
  about_to_serve :
      (q : Service Rq Rp)
      → Reach (launch q ds) (
          running (record {
            starter = made;
            phase = waiting;
            server = record q { listening = true; store = some st; serving = true };
            halting = false;
            closed = [];
            deferred = ds;
          }))
  about_to_serve q =
      next (next (next here (listens _ refl)) (makes_store _ st refl)) (makes_server _ refl)

  -- With a signal during the start of a new server three other ends are reached: a method is called of
  -- the server that `Stop` has set to nil; `Serve` finds the server stopped, and the process ends by
  -- Fatalf, past `Stop`'s look at the server; `main` returns while the store that was made stays open.
  pub signal_during_start :
      (q : Service Rq Rp)
      → q.serving ≡ false
      → Reach (launch q ds) (over panicked (st ∷ []))
        × Reach (launch q ds) (over (failed_start "grpc: the server has been stopped") [])
        × Reach (launch q ds) (over (returned ds) [])
  signal_during_start q idle = (
    next
        (next (next (next (about_to_serve q) (signal _ refl)) (stops_gracefully _ refl refl))
          (closes_store _ refl))
        (serves_nil _ refl refl),
    next
        (next (next (next (about_to_serve q) (signal _ refl)) (stops_gracefully _ refl refl))
          (serves_stopped _ refl refl refl))
        (dies _ "grpc: the server has been stopped" refl),
    next
        (next (next (next (next here (listens _ refl)) (makes_store _ st refl)) (signal _ refl))
          (stops_nothing _ refl idle))
        (returns _ refl),
  )
