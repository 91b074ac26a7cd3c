-- ===== src/Client/Notifications.antt =====
-- client/go/quorum-quest-client/client.go: the leadership callbacks over a client's history.
use quorum_quest.Prelude.{
  ℤ, Bool, true, false, ◌&&◌, String, Option, none, some, List, [], ◌∷◌, ◌++◌, ◌≡◌, refl, arith,
  ◌∙◌,
}
use quorum_quest.Program.{Result, ok, err}
use quorum_quest.Client.{
  Client, Event, elected, lost, LockRequest, ReleaseRequest, release_request, announce,
  try_acquire_lock, release_lock, keep_alive, tick,
}

-- What happens to a client, with what the server would answer.
pub data Step : Type 0 where
  acquires : (LockRequest → Result String Bool) → Step
  releases : (ReleaseRequest → Result String (Unit {0})) → Step
  ticks : (LockRequest → Result String ℤ) → Step

abbrev pub step : Step → Client → Client × List Event
step (acquires send) q = let (r, q', es) = try_acquire_lock send q in (q', es)
step (releases send) q = let (r, q', es) = release_lock send q in (q', es)
step (ticks send) q = let (r, q', es) = tick send q in (q', es)

unfoldable pub run : List Step → Client → Client × List Event
run [] q = (q, [])
run (x ∷ xs) q = let (q', es) = step x q in let (q'', fs) = run xs q' in (q'', es ++ fs)

-- The leadership that the callbacks tell, from one that is known: `none` when a callback tells what
-- is known already, or that the client was not elected.
abbrev pub replay : Bool → List Event → Option Bool
replay leader [] = some leader
replay false (elected true ∷ es) = replay true es
replay true (lost ∷ es) = replay false es
replay leader (e ∷ es) = none

-- No release in the history fails.
abbrev pub is_answered : {A : Type 0} → Result String A → Bool
is_answered (ok a) = true
is_answered (err m) = false

abbrev pub releases_answered : List Step → Client → Bool
releases_answered [] q = true
releases_answered (x ∷ xs) q = answered x && releases_answered xs (step x q).0
  where
    answered : Step → Bool
    answered (releases send) = is_answered (send (release_request q))
    answered (acquires send) = true
    answered (ticks send) = true

replay-append :
    (b c : Bool) (es fs : List Event) → replay b es ≡ some c → replay b (es ++ fs) ≡ replay c fs
replay-append b c [] fs h = ground arith
replay-append false c (elected true ∷ es) fs h = replay-append true c es fs h
replay-append false c (elected false ∷ es) fs h = ground arith
replay-append true c (elected true ∷ es) fs h = ground arith
replay-append true c (elected false ∷ es) fs h = ground arith
replay-append false c (lost ∷ es) fs h = ground arith
replay-append true c (lost ∷ es) fs h = replay-append false c es fs h

pub step-replay :
    (x : Step) (q : Client)
    → releases_answered (x ∷ []) q ≡ true
    → let (q', es) = step x q in replay q.is_leader es ≡ some q'.is_leader
unfolding try_acquire_lock release_lock keep_alive tick announce
step-replay (acquires send) q h = ground arith
step-replay (releases send) q h = ground arith
step-replay (ticks send) q h = ground arith

-- Over any history of lock calls and keep-alives in which no release fails, the callbacks tell every
-- change of leadership once and in order: elected and lost alternate, and the last of them says
-- whether the client leads.
pub run-replay :
    (q : Client) (xs : List Step)
    → releases_answered xs q ≡ true
    → let (q', es) = run xs q in replay q.is_leader es ≡ some q'.is_leader
unfolding run
run-replay q [] h = refl
run-replay q (x ∷ xs) h =
    replay-append q.is_leader (step x q).0.is_leader (step x q).1 (run xs (step x q).0).1
      (step-replay x q (ground arith))
    ∙ run-replay (step x q).0 xs (ground arith)

-- A release that fails ends the leadership of the client, and starts no callback.
pub release_lock_silent :
    (q : Client) (send : ReleaseRequest → Result String (Unit {0}))
    → is_answered (send (release_request q)) ≡ false
    → let (r, q', es) = release_lock send q in (q'.is_leader ≡ false) × (es ≡ [])
unfolding release_lock
release_lock_silent q send h = ground arith
