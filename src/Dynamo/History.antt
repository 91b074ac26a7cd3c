-- ===== src/Dynamo/History.antt =====
-- Any number of lock calls on internal/store/dynamodb/dynamodb_store.go, one after the other, each with
-- the moment that its caller's clock shows. Requests may fail.
use quorum_quest.Prelude.{
  ℕ, ℤ, pos, ltb_ℤ, Bool, true, false, ◌&&◌, String, str_eq, str_dec, Option, List, [], ◌∷◌, ◌≡◌,
  refl, sym, ◌≢◌, subst, if◌then◌else◌, arith,
}
use quorum_quest.Program.{Server, execute}
use quorum_quest.Lease.{no_lease_negative}
use quorum_quest.Calls.{
  Method, acquires, releases, renews, Call, Answer, granted, released, leased, refused,
}
use quorum_quest.Dynamo.{
  Item, Condition, Request, Reply, Store, lock_key, try_acquire_lock, release_lock, keep_alive,
}
use quorum_quest.Dynamo.Server.{IsDynamo, IsFresh}
use quorum_quest.Dynamo.Leases.{
  Holds, try_acquire_lock-foreign, release_lock-foreign, keep_alive-foreign, other_items_kept,
}

abbrev pub key_of : Call → String
key_of c = lock_key c.service c.domain

-- Every call is of another client than `b`, at a moment when a lock until `expiry` has not run out.
abbrev pub WithinLease : String → ℤ → List (ℕ × Call) → Type 0
WithinLease b expiry [] = Unit {0}
WithinLease b expiry ((now, c) ∷ cs) =
    (b ≢ c.client) × (ltb_ℤ expiry (pos now) ≡ false) × WithinLease b expiry cs

module _ (S : Server Request Reply) (s : Store) where
  dispatch : ℕ → String → String → String → Method → S.State → Answer × S.State
  dispatch now service domain client (acquires ttl) st =
      let (b, st') = execute S (try_acquire_lock s now service domain client ttl) st in
      (granted b, st')
  dispatch now service domain client releases st =
      let (_, st') = execute S (release_lock s service domain client) st in (released, st')
  dispatch now service domain client (renews ttl) st =
      let (l, st') = execute S (keep_alive s now service domain client ttl) st in (leased l, st')

  unfoldable pub perform : ℕ → Call → S.State → Answer × S.State
  unfolding dispatch
  perform now c st = dispatch now c.service c.domain c.client c.method st

  unfoldable pub after_all : List (ℕ × Call) → S.State → S.State
  after_all [] st = st
  after_all ((now, c) ∷ cs) st = after_all cs (perform now c st).1

  -- Whether every call for the key is refused, at its place in the history.
  unfoldable pub all_refused : String → List (ℕ × Call) → S.State → Bool
  all_refused key [] st = true
  all_refused key ((now, c) ∷ cs) st =
      (if str_eq (key_of c) key then refused (perform now c st).0 else true)
      && all_refused key cs (perform now c st).1

module _ (S : Server Request Reply) (item : S.State → String → String → Option Item)
    (meets : Condition → Option Item → Bool) (D : IsDynamo S item meets) (F : IsFresh S item)
    (s : Store) where
  module _ (now : ℕ) (service domain a : String) (st : S.State) (b : String) (expiry : ℤ)
      (other : b ≢ a) (valid : ltb_ℤ expiry (pos now) ≡ false) where
    dispatch_same :
        (m : Method)
        → Holds (item st s.table_name (lock_key service domain)) b expiry
        → (refused (dispatch S s now service domain a m st).0 ≡ true)
          × (item (dispatch S s now service domain a m st).1 s.table_name (lock_key service domain)
              ≡ item st s.table_name (lock_key service domain))
    unfolding dispatch
    dispatch_same (acquires ttl) held = ground (
      arith,
      try_acquire_lock-foreign S item meets D s now service domain a ttl st b expiry held other
          valid,
    )
    dispatch_same releases held = (
      refl,
      release_lock-foreign S item meets D s now service domain a (pos 0) st b expiry held other F,
    )
    dispatch_same (renews ttl) held = ground (
      arith,
      keep_alive-foreign S item meets D s now service domain a ttl st b expiry held other,
      no_lease_negative,
    )

    dispatch_apart :
        (m : Method) (key : String)
        → key ≢ lock_key service domain
        → item (dispatch S s now service domain a m st).1 s.table_name key
          ≡ item st s.table_name key
    unfolding dispatch
    dispatch_apart (acquires ttl) key n =
        (other_items_kept S item meets D s now service domain a ttl st key n).0
    dispatch_apart releases key n =
        (other_items_kept S item meets D s now service domain a (pos 0) st key n).1
    dispatch_apart (renews ttl) key n =
        (other_items_kept S item meets D s now service domain a ttl st key n).2

  perform_other :
      (now : ℕ) (c : Call) (st : S.State) (b key : String) (expiry : ℤ)
      → Holds (item st s.table_name key) b expiry
      → b ≢ c.client
      → ltb_ℤ expiry (pos now) ≡ false
      → ((if str_eq (key_of c) key then refused (perform S s now c st).0 else true) ≡ true)
        × (item (perform S s now c st).1 s.table_name key ≡ item st s.table_name key)
  unfolding perform
  perform_other now c st b key expiry held other valid = elim (str_dec (key_of c) key) [
    | yes e ↦ ground (
      arith,
      dispatch_same now c.service c.domain c.client st b expiry other valid c.method
          (subst (λ k. Holds (item st s.table_name k) b expiry) (sym e) held),
    )
    | no n ↦ ground (
      arith,
      dispatch_apart now c.service c.domain c.client st b expiry other valid c.method key
          (λ p. n (sym p)),
    )
  ]

  -- Until the lease of a client runs out by the clocks of all callers, the lock calls of all other
  -- clients leave it the lock, and those for this lock are refused: no acquisition succeeds, no lease
  -- is given. Each call's requests follow one another with nothing in between, and reads are up to
  -- date.
  pub lease_excludes_others :
      (cs : List (ℕ × Call)) (st : S.State) (b key : String) (expiry : ℤ)
      → Holds (item st s.table_name key) b expiry
      → WithinLease b expiry cs
      → (all_refused S s key cs st ≡ true)
        × Holds (item (after_all S s cs st) s.table_name key) b expiry
  unfolding after_all all_refused
  lease_excludes_others [] st b key expiry held within = (refl, held)
  lease_excludes_others ((now, c) ∷ cs) st b key expiry held within =
      let (no_luck, same) = perform_other now c st b key expiry held within.0 within.1 in
      let (rest, kept) =
        lease_excludes_others cs (perform S s now c st).1 b key expiry
          (subst (λ i. Holds i b expiry) (sym same) held) within.2 in
      (rw (no_luck, rest), kept)
