-- ===== src/Service/Lifecycle.antt =====
-- internal/server/server.go: starting and stopping.
use quorum_quest.Prelude.{
  true, false, String, Option, none, ◌≡◌, refl, ◌∙◌, ap, arith, Bool-cases, Option-cases, inl, inr,
  if◌then◌else◌,
}
use quorum_quest.Program.{Server, err, Program, done, call, log, ◌>>=◌, execute}
use quorum_quest.Client.{LockRequest, ReleaseRequest}
use quorum_quest.Service.{
  Service, close_store, panic, stop, try_acquire_lock, release_lock, keep_alive,
}

module _ {Req : Type 0} {Rep : Req → Type 0} (S : Server Req Rep) where
  -- A program followed by another runs the one and then the other.
  pub execute->>= :
      {A B : Type 0} (p : Program Req Rep A) (f : A → Program Req Rep B) (t : S.State)
      → execute S (p >>= f) t ≡ (let (a, t') = execute S p t in execute S (f a) t')
  execute->>= (done a) f t = refl
  execute->>= (call r k) f t = execute->>= (k (S.handle r t).0) f (S.handle r t).1
  execute->>= (log l m p) f t = execute->>= p f t

  abbrev stopped : Service Req Rep → Service Req Rep
  stopped q = if q.serving then record q { serving = false; store = none } else q

  execute-stop : (q : Service Req Rep) (t : S.State) → (execute S (stop q) t).0 ≡ stopped q
  unfolding stop close_store
  execute-stop q t = elim (Bool-cases q.serving) [
    | inr idle ↦ rw idle refl
    | inl busy ↦ elim (Option-cases q.store) [
      | inl none_left ↦ rw (busy, none_left) refl
      | inr (st, kept) ↦ rw (busy, kept) (ap (λ x. x.0) (execute->>= st.close _ t))
    ]
  ]

  stop_idle :
      (q : Service Req Rep) (t : S.State) → q.serving ≡ false → execute S (stop q) t ≡ (q, t)
  unfolding stop
  stop_idle q t idle = rw idle refl

  stopped_idle : (q : Service Req Rep) → (stopped q).serving ≡ false
  stopped_idle q = ground arith

  stopped_store : (q : Service Req Rep) → q.serving ≡ true → (stopped q).store ≡ none
  stopped_store q h = ground arith

  -- A second Stop asks the database for nothing and changes nothing.
  pub stop_idempotent :
      (q : Service Req Rep) (t : S.State)
      → let (q', t') = execute S (stop q) t in execute S (stop q') t' ≡ (q', t')
  stop_idempotent q t = stop_idle _ _ (rw (execute-stop q t) (stopped_idle q))

  storeless_panics :
      (q : Service Req Rep) (metric : Option String) (r : LockRequest) (l : ReleaseRequest)
      → q.store ≡ none
      → (try_acquire_lock metric q r ≡ done (err panic))
        × (release_lock metric q l ≡ done (err panic))
        × (keep_alive metric q r ≡ done (err panic))
  unfolding try_acquire_lock release_lock keep_alive
  storeless_panics q metric r l gone = rw gone (refl, refl, refl)

  -- After Stop, a server that was serving has no store: every handler that runs then calls a method of
  -- a nil store, and panics.
  pub stop_panics :
      (q : Service Req Rep) (t : S.State) (metric : Option String) (r : LockRequest)
      (l : ReleaseRequest)
      → q.serving ≡ true
      → let (q', t') = execute S (stop q) t in
        (try_acquire_lock metric q' r ≡ done (err panic))
        × (release_lock metric q' l ≡ done (err panic))
        × (keep_alive metric q' r ≡ done (err panic))
  stop_panics q t metric r l h =
      storeless_panics (execute S (stop q) t).0 metric r l
        (ap (λ x. x.store) (execute-stop q t) ∙ stopped_store q h)
