-- ===== src/Example/Session.antt =====
-- client/go/quorum-quest-client/example/main.go: `main` from its loop on, with the goroutine that waits for
-- a signal and cancels the context, and the keep-alive goroutine of the client.
use quorum_quest.Prelude.{
  ℤ, Bool, true, false, Bool-cases, inl, inr, ◌∙◌, ◌||◌, String, Option, List, [], ◌∷◌, ◌≡◌, refl,
  sym, ap, subst, false≢true, arith, if◌then◌else◌,
}
use quorum_quest.Program.{Result}
use quorum_quest.Client.{LockRequest, ReleaseRequest}
use quorum_quest.Example.{Process, status_tick, keep_alive_tick, shut_down}
use quorum_quest.Example.Loop.{shut_down_ends}

-- `cancelled` says that the context is done, and `returned` that `main` has returned, which ends the
-- process.
pub record Session : Type 0 where
  pub process : Process
  pub cancelled : Bool
  pub returned : Bool

-- What comes next: a signal for the goroutine, which waits for one only; the status ticker or the end of
-- the context, where the `select` takes that; the ticker of the client's goroutine. With what the server
-- would answer, and the error of closing the connection.
pub data Input : Type 0 where
  signal : Input
  status : (LockRequest → Result String Bool) → Input
  keep : (LockRequest → Result String ℤ) → Input
  context_done : (ReleaseRequest → Result String (Unit {0})) → Option String → Input

abbrev pub respond : Input → Session → Session
respond signal s = record s { cancelled = true }
respond (status send) s = record s { process = status_tick send s.process }
respond (keep send) s = record s { process = keep_alive_tick send s.process }
respond (context_done send closed) s =
    if s.cancelled
    then record s { process = shut_down send closed s.process; returned = true }
    else s

-- Nothing goes on past the return.
unfoldable pub follow : Input → Session → Session
follow x s = if s.returned then s else respond x s

unfoldable pub session : List Input → Session → Session
session [] s = s
session (x ∷ xs) s = session xs (follow x s)

abbrev pub begin : Process → Session
begin p = record { process = p; cancelled = false; returned = false }

-- Whether some signal is among the inputs.
abbrev pub signalled : List Input → Bool
signalled [] = false
signalled (signal ∷ xs) = true
signalled (x ∷ xs) = signalled xs

-- Past its return `main` has had its signal, and the client does not lead and is kept alive no more.
abbrev Ended : Session → Type 0
Ended s =
    (s.cancelled ≡ true)
    × (s.process.client.is_leader ≡ false)
    × (s.process.client.running ≡ false)
    × (s.process.keeping ≡ false)

respond-Ended :
    (x : Input) (s : Session)
    → s.returned ≡ false
    → (respond x s).returned ≡ true
    → Ended (respond x s)
respond-Ended signal s goes_on over = ground arith
respond-Ended (status send) s goes_on over = ground arith
respond-Ended (keep send) s goes_on over = ground arith
respond-Ended (context_done send closed) s goes_on over = elim (Bool-cases s.cancelled) [
  | inl done ↦
      let ends = shut_down_ends send closed s.process in rw done (refl, ends.0, ends.1, ends.2)
  | inr waits ↦ absurd (false≢true (sym goes_on ∙ rw waits at over))
]

follow-Ended :
    (x : Input) (s : Session)
    → (s.returned ≡ true → Ended s)
    → (follow x s).returned ≡ true
    → Ended (follow x s)
unfolding follow
follow-Ended x s h = elim (Bool-cases s.returned) [
  | inl past ↦ subst (λ r. r.returned ≡ true → Ended r) (sym (chosen past)) h
  | inr goes_on ↦
      subst (λ r. r.returned ≡ true → Ended r) (sym (passed goes_on)) (respond-Ended x s goes_on)
]
  where
    chosen : s.returned ≡ true → (if s.returned then s else respond x s) ≡ s
    chosen e = ap (λ b. if b then s else respond x s) e

    passed : s.returned ≡ false → (if s.returned then s else respond x s) ≡ respond x s
    passed e = ap (λ b. if b then s else respond x s) e

session-Ended :
    (xs : List Input) (s : Session)
    → (s.returned ≡ true → Ended s)
    → (session xs s).returned ≡ true
    → Ended (session xs s)
unfolding session
session-Ended [] s h over = h over
session-Ended (x ∷ xs) s h over = session-Ended xs (follow x s) (follow-Ended x s h) over

cancelled_by :
    (xs : List Input) (s : Session)
    → (session xs s).cancelled ≡ true
    → (s.cancelled || signalled xs) ≡ true
unfolding session follow
cancelled_by [] s h = ground arith
cancelled_by (signal ∷ xs) s h = ground arith
cancelled_by (status send ∷ xs) s h = ground (arith, cancelled_by xs (follow (status send) s) h)
cancelled_by (keep send ∷ xs) s h = ground (arith, cancelled_by xs (follow (keep send) s) h)
cancelled_by (context_done send closed ∷ xs) s h =
    ground (arith, cancelled_by xs (follow (context_done send closed) s) h)

-- Whatever the process is in its loop, and whatever comes and is answered: `main` returns only after a
-- signal, and where it has returned the client does not lead and its keep-alive is stopped.
pub session_ends :
    (xs : List Input) (p : Process)
    → (session xs (begin p)).returned ≡ true
    → let q = (session xs (begin p)).process in
      (signalled xs ≡ true)
      × (q.client.is_leader ≡ false)
      × (q.client.running ≡ false)
      × (q.keeping ≡ false)
session_ends xs p over =
    let ended = session-Ended xs (begin p) (λ e. absurd (false≢true e)) over in
    (cancelled_by xs (begin p) ended.0, ended.1, ended.2, ended.3)
