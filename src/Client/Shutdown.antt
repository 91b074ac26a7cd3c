-- ===== src/Client/Shutdown.antt =====
-- client/go/quorum-quest-client/client.go: StopKeepAlive against the keep-alive goroutine. Both lock
-- `q.mu`, and StopKeepAlive holds it while it waits for the goroutine to end.
use quorum_quest.Prelude.{Bool, true, false, ◌≡◌, ◌≢◌, refl, sym, arith, false≢true}

-- Where StopKeepAlive stands: before it locks `q.mu`, in `notifyWaitGroup.Wait()` (with `q.mu` locked
-- and `notifyStop` closed), or returned.
pub data Stopper : Type 0 where
  calling waiting returned : Stopper

-- Where the goroutine stands: in its `select`, in the RPC, before `q.mu.Lock()`, between the lock and
-- the unlock, or at its end.
pub data Worker : Type 0 where
  selecting requesting locking inside ended : Worker

pub data Mutex : Type 0 where
  unlocked by_stopper by_worker : Mutex

pub record State : Type 0 where
  pub stopper : Stopper
  pub worker : Worker
  pub mutex : Mutex

abbrev pub at : Stopper → Worker → Mutex → State
at s w m = record { stopper = s; worker = w; mutex = m }

-- The steps of the two. A `select` may take the ticker's case though `notifyStop` is closed. After
-- the RPC the goroutine locks `q.mu` whether it failed or not, and twice for a negative lease.
pub data Step : State → State → Type 0 where
  close_stop : {w : Worker} → Step (at calling w unlocked) (at waiting w by_stopper)
  wait_ends : Step (at waiting ended by_stopper) (at returned ended unlocked)
  tick_fires : {s : Stopper} {m : Mutex} → Step (at s selecting m) (at s requesting m)
  stop_received : {m : Mutex} → Step (at waiting selecting m) (at waiting ended m)
  answered : {s : Stopper} {m : Mutex} → Step (at s requesting m) (at s locking m)
  locks : {s : Stopper} → Step (at s locking unlocked) (at s inside by_worker)
  unlocks : {s : Stopper} → Step (at s inside by_worker) (at s selecting unlocked)
  locks_again : {s : Stopper} → Step (at s inside by_worker) (at s locking unlocked)
  ends : {s : Stopper} → Step (at s inside by_worker) (at s ended unlocked)

pub data Reach : State → State → Type 0 where
  here : {s : State} → Reach s s
  then_step : {s t u : State} → Step s t → Reach t u → Reach s u

-- The client before StopKeepAlive is called, its goroutine in the `select`.
abbrev pub started : State
started = at calling selecting unlocked

-- StopKeepAlive waits, and the goroutine is past its `select`.
abbrev pub is_locked_out : State → Bool
is_locked_out s = elim s.stopper [
  | waiting ↦ elim s.mutex [
    | by_stopper ↦ elim s.worker [ requesting ↦ true | locking ↦ true | _ ↦ false ]
    | _ ↦ false
  ]
  | _ ↦ false
]

is_locked_out-Step : {s t : State} → Step s t → is_locked_out s ≡ true → is_locked_out t ≡ true
is_locked_out-Step (close_stop {w}) h = ground arith
is_locked_out-Step wait_ends h = ground arith
is_locked_out-Step (tick_fires {s} {m}) h = ground arith
is_locked_out-Step (stop_received {m}) h = ground arith
is_locked_out-Step (answered {s} {m}) h = ground arith
is_locked_out-Step (locks {s}) h = ground arith
is_locked_out-Step (unlocks {s}) h = ground arith
is_locked_out-Step (locks_again {s}) h = ground arith
is_locked_out-Step (ends {s}) h = ground arith

is_locked_out-Reach : {s t : State} → Reach s t → is_locked_out s ≡ true → is_locked_out t ≡ true
is_locked_out-Reach here h = h
is_locked_out-Reach (then_step x r) h = is_locked_out-Reach r (is_locked_out-Step x h)

abbrev is_returned : State → Bool
is_returned s = elim s.stopper [ returned ↦ true | _ ↦ false ]

locked_out_waits : (s : State) → is_locked_out s ≡ true → is_returned s ≡ false
locked_out_waits s h = ground arith

-- When StopKeepAlive begins to wait while the goroutine is in its RPC or about to lock `q.mu`, it
-- never returns: in no state that is reached from there has it.
pub stop_keep_alive_blocks :
    {s t : State} → Reach s t → is_locked_out s ≡ true → t.stopper ≢ returned
stop_keep_alive_blocks {s} {t} r h e = ground (arith, locked_out_waits t (is_locked_out-Reach r h))

abbrev is_stuck : State → Bool
is_stuck s = elim s.mutex [
  | by_stopper ↦ elim s.stopper [
    | waiting ↦ elim s.worker [ locking ↦ true | _ ↦ false ]
    | _ ↦ false
  ]
  | _ ↦ false
]

stuck_none : {s t : State} → Step s t → is_stuck s ≡ false
stuck_none (close_stop {w}) = refl
stuck_none wait_ends = refl
stuck_none (tick_fires {s} {m}) = ground arith
stuck_none (stop_received {m}) = ground arith
stuck_none (answered {s} {m}) = ground arith
stuck_none (locks {s}) = refl
stuck_none (unlocks {s}) = refl
stuck_none (locks_again {s}) = refl
stuck_none (ends {s}) = refl

-- From the start a state is reached in which StopKeepAlive waits for the goroutine, the goroutine for
-- `q.mu`, and neither can move.
pub stop_keep_alive_deadlock :
    Reach started (at waiting locking by_stopper)
    × ((t : State) → ¬ (Step (at waiting locking by_stopper) t))
stop_keep_alive_deadlock = (
  then_step tick_fires (then_step close_stop (then_step answered here)),
  λ t st. false≢true (sym (stuck_none st)),
)

-- StopKeepAlive can return: it does when the goroutine is in its `select` and takes the stop.
pub stop_keep_alive_returns : Reach started (at returned ended unlocked)
stop_keep_alive_returns = then_step close_stop (then_step stop_received (then_step wait_ends here))
