-- ===== src/Main/Process.antt =====
-- cmd/quorum-quest-service/main.go past the start-up: the goroutine that starts the server, the signal,
-- and `Stop` of internal/server/server.go, which share the server without a lock. What happens between
-- two accesses to its fields is one step.
use quorum_quest.Prelude.{
  String, str_eq, Bool, true, false, Option, none, some, List, [], ◌∷◌, ◌<>◌, ◌≡◌,
}
use quorum_quest.Service.{Service, LockStore}
use quorum_quest.Main.{Deferred}

-- Where the goroutine is: before `net.Listen`, before the store is made, before `grpc.NewServer`,
-- before the call of `Serve`, in it, past `Start` with no error, and past it with an error, before
-- `Fatalf`.
pub data Starter : Type 0 where
  begins bound stored made serving started : Starter
  failed : String → Starter

-- Where `main` is: at its wait, before `Stop` looks at the server, past `GracefulStop`, past `Stop`.
pub data Phase : Type 0 where
  waiting signalled halted stopped : Phase

-- How the process ends: `main` returns, past these deferred calls, some goroutine calls `Fatalf`, or a
-- method is called of a nil server.
pub data End : Type 0 where
  returned : List Deferred → End
  fatal : String → End
  panicked : End

-- `halting` says that `GracefulStop` was called of the server, and `closed` has the stores that were
-- closed.
pub record Running (Rq : Type 0) (Rp : Rq → Type 0) : Type 0 where
  pub starter : Starter
  pub phase : Phase
  pub server : Service Rq Rp
  pub halting : Bool
  pub closed : List (LockStore Rq Rp)
  pub deferred : List Deferred

pub data Process (Rq : Type 0) (Rp : Rq → Type 0) : Type 0 where
  running : Running Rq Rp → Process Rq Rp
  over : End → List (LockStore Rq Rp) → Process Rq Rp

abbrev pub failed_start : String → End
failed_start m = fatal ("Failed to start server: " <> m)

module _ {Rq : Type 0} {Rp : Rq → Type 0} where
  -- With the server that `NewServer` has made.
  abbrev pub launch : Service Rq Rp → List Deferred → Process Rq Rp
  launch q ds = running (record {
    starter = begins;
    phase = waiting;
    server = q;
    halting = false;
    closed = [];
    deferred = ds;
  })

  abbrev pub close_all : Option (LockStore Rq Rp) → List (LockStore Rq Rp) → List (LockStore Rq Rp)
  close_all none closed = closed
  close_all (some st) closed = st ∷ closed

  -- A process that is over makes no step.
  pub data Step : Process Rq Rp → Process Rq Rp → Type 0 where
    -- The goroutine: `Start`.
    listens :
        (p : Running Rq Rp)
        → p.starter ≡ begins
        → Step
            (running p)
            (running (record p { starter = bound; server = record p.server { listening = true } }))
    listen_fails :
        (p : Running Rq Rp) (m : String)
        → p.starter ≡ begins
        → Step (running p) (running (record p { starter = failed m }))
    makes_store :
        (p : Running Rq Rp) (st : LockStore Rq Rp)
        → p.starter ≡ bound
        → Step
            (running p)
            (running (record p { starter = stored; server = record p.server { store = some st } }))
    store_fails :
        (p : Running Rq Rp) (m : String)
        → p.starter ≡ bound
        → Step (running p) (running (record p { starter = failed m }))
    makes_server :
        (p : Running Rq Rp)
        → p.starter ≡ stored
        → Step
            (running p)
            (running (record p { starter = made; server = record p.server { serving = true } }))
    serves :
        (p : Running Rq Rp)
        → p.starter ≡ made
        → p.server.serving ≡ true
        → p.halting ≡ false
        → Step (running p) (running (record p { starter = serving }))
    -- `Serve` of a server that was stopped.
    serves_stopped :
        (p : Running Rq Rp)
        → p.starter ≡ made
        → p.server.serving ≡ true
        → p.halting ≡ true
        → Step
            (running p)
            (running (record p { starter = failed "grpc: the server has been stopped" }))
    serves_nil :
        (p : Running Rq Rp)
        → p.starter ≡ made
        → p.server.serving ≡ false
        → Step (running p) (over panicked p.closed)
    -- `Serve` returns no error once the server is stopped, and else the error of its listener.
    serve_ends :
        (p : Running Rq Rp)
        → p.starter ≡ serving
        → p.halting ≡ true
        → Step (running p) (running (record p { starter = started }))
    serve_fails :
        (p : Running Rq Rp) (m : String)
        → p.starter ≡ serving
        → p.halting ≡ false
        → str_eq m "closed" ≡ false
        → Step (running p) (running (record p { starter = failed m }))
    serve_closed :
        (p : Running Rq Rp)
        → p.starter ≡ serving
        → p.halting ≡ false
        → Step (running p) (running (record p { starter = started }))
    -- `Fatalf`, where the rest of the process may have gone on since `Start` returned its error.
    dies :
        (p : Running Rq Rp) (m : String)
        → p.starter ≡ failed m
        → Step (running p) (over (failed_start m) p.closed)
    -- `main`, with `Stop`.
    signal :
        (p : Running Rq Rp)
        → p.phase ≡ waiting
        → Step (running p) (running (record p { phase = signalled }))
    stops_nothing :
        (p : Running Rq Rp)
        → p.phase ≡ signalled
        → p.server.serving ≡ false
        → Step (running p) (running (record p { phase = stopped }))
    stops_gracefully :
        (p : Running Rq Rp)
        → p.phase ≡ signalled
        → p.server.serving ≡ true
        → Step (running p) (running (record p { phase = halted; halting = true }))
    closes_store :
        (p : Running Rq Rp)
        → p.phase ≡ halted
        → Step (running p) (
            running (record p {
              phase = stopped;
              server = record p.server { serving = false; store = none };
              closed = close_all p.server.store p.closed;
            }))
    returns :
        (p : Running Rq Rp)
        → p.phase ≡ stopped
        → Step (running p) (over (returned p.deferred) p.closed)

  pub data Reach (p : Process Rq Rp) : Process Rq Rp → Type 0 where
    here : Reach p p
    next : {q r : Process Rq Rp} → Reach p q → Step q r → Reach p r
