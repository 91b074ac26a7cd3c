-- ===== src/Redis/History.antt =====
-- Any number of lock calls on internal/store/redis/redis_store.go, one after the other, against one
-- server. Requests may fail.
use quorum_quest.Prelude.{
  pos, Bool, true, ◌&&◌, String, str_eq, str_dec, Option, some, List, [], ◌∷◌, ◌≡◌, refl, sym, ◌∙◌,
  ◌≢◌, if◌then◌else◌, arith,
}
use quorum_quest.Program.{Server, execute}
use quorum_quest.Lease.{no_lease_negative}
use quorum_quest.Calls.{
  Method, acquires, releases, renews, Call, Answer, granted, released, leased, refused, FromOthers,
}
use quorum_quest.Redis.{Request, Reply, Store, lock_key, try_acquire_lock, release_lock, keep_alive}
use quorum_quest.Redis.Server.{IsRedis}
use quorum_quest.Redis.Safety.{
  try_acquire_lock-foreign, release_lock-foreign, keep_alive-foreign, lock_calls_frame,
}

abbrev pub key_of : Store → Call → String
key_of s c = lock_key s c.service c.domain

module _ (S : Server Request Reply) (s : Store) where
  dispatch : String → String → String → Method → S.State → Answer × S.State
  dispatch service domain client (acquires ttl) st =
      let (b, st') = execute S (try_acquire_lock s service domain client ttl) st in (granted b, st')
  dispatch service domain client releases st =
      let (_, st') = execute S (release_lock s service domain client) st in (released, st')
  dispatch service domain client (renews ttl) st =
      let (l, st') = execute S (keep_alive s service domain client ttl) st in (leased l, st')

  unfoldable pub perform : Call → S.State → Answer × S.State
  unfolding dispatch
  perform c st = dispatch c.service c.domain c.client c.method st

  unfoldable pub after_all : List Call → S.State → S.State
  after_all [] st = st
  after_all (c ∷ cs) st = after_all cs (perform c st).1

  -- Whether every call for the key is refused, at its place in the history.
  unfoldable pub all_refused : String → List Call → S.State → Bool
  all_refused key [] st = true
  all_refused key (c ∷ cs) st =
      (if str_eq (key_of s c) key then refused (perform c st).0 else true)
      && all_refused key cs (perform c st).1

module _ (S : Server Request Reply) (value : S.State → String → Option String) (R : IsRedis S value)
    (s : Store) where
  module _ (service domain a : String) (st : S.State) (b key : String)
      (held : value st key ≡ some b) (other : b ≢ a) where
    dispatch_same :
        (m : Method)
        → lock_key s service domain ≡ key
        → (refused (dispatch S s service domain a m st).0 ≡ true)
          × (value (dispatch S s service domain a m st).1 key ≡ some b)
    unfolding dispatch
    dispatch_same (acquires ttl) e =
        ground (arith, try_acquire_lock-foreign S value R s service domain a ttl st b)
    dispatch_same releases e =
        ground (arith, release_lock-foreign S value R s service domain a (pos 0) st b)
    dispatch_same (renews ttl) e =
        ground (arith, keep_alive-foreign S value R s service domain a ttl st b, no_lease_negative)

    dispatch_apart :
        (m : Method)
        → key ≢ lock_key s service domain
        → value (dispatch S s service domain a m st).1 key ≡ some b
    unfolding dispatch
    dispatch_apart (acquires ttl) n =
        (lock_calls_frame S value R s service domain a ttl st key n).0 ∙ held
    dispatch_apart releases n =
        (lock_calls_frame S value R s service domain a (pos 0) st key n).1 ∙ held
    dispatch_apart (renews ttl) n =
        (lock_calls_frame S value R s service domain a ttl st key n).2 ∙ held

  perform_other :
      (c : Call) (st : S.State) (b key : String)
      → value st key ≡ some b
      → b ≢ c.client
      → ((if str_eq (key_of s c) key then refused (perform S s c st).0 else true) ≡ true)
        × (value (perform S s c st).1 key ≡ some b)
  unfolding perform
  perform_other c st b key held other = elim (str_dec (key_of s c) key) [
    | yes e ↦
        ground (arith, dispatch_same c.service c.domain c.client st b key held other c.method e)
    | no n ↦ ground (
      arith,
      dispatch_apart c.service c.domain c.client st b key held other c.method (λ p. n (sym p)),
    )
  ]

  -- While a client holds a lock, all lock calls of all other clients leave it the lock, and those for
  -- this lock are refused: no acquisition succeeds, no lease is given. Each call's requests follow one
  -- another with nothing in between.
  pub holder_keeps_lock :
      (cs : List Call) (st : S.State) (b key : String)
      → value st key ≡ some b
      → FromOthers b cs
      → (all_refused S s key cs st ≡ true) × (value (after_all S s cs st) key ≡ some b)
  unfolding after_all all_refused
  holder_keeps_lock [] st b key held others = (refl, held)
  holder_keeps_lock (c ∷ cs) st b key held others =
      let (no_luck, still) = perform_other c st b key held others.0 in
      let (rest, kept) = holder_keeps_lock cs (perform S s c st).1 b key still others.1 in
      (rw (no_luck, rest), kept)
