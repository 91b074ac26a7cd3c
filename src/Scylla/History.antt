-- ===== src/Scylla/History.antt =====
-- Any number of lock calls on internal/store/scylladb/scylladb_store.go, one after the other, against one
-- server. Requests may fail.
use quorum_quest.Prelude.{
  ℤ, pos, Bool, true, false, ◌&&◌, String, str_eq, str_dec, Option, some, List, [], ◌∷◌, ◌≡◌, refl,
  ◌≢◌, ◌⊎◌, inl, inr, if◌then◌else◌, arith,
}
use quorum_quest.Program.{Server, execute}
use quorum_quest.Calls.{
  Method, acquires, releases, renews, Call, Answer, granted, released, leased, FromOthers,
}
use quorum_quest.Scylla.{Request, Reply, Store, try_acquire_lock, release_lock, keep_alive}
use quorum_quest.Scylla.Server.{Row, IsPrepared, IsScylla, IsFresh}
use quorum_quest.Scylla.Safety.{try_acquire_lock-foreign, release_lock-foreign, other_rows_kept}
use quorum_quest.Scylla.KeepAlive.{keep_alive_keeps_row}

-- An acquisition that succeeds.
abbrev pub wins : Answer → Bool
wins (granted b) = b
wins _ = false

module _ (S : Server Request Reply) (format_int : ℤ → String) (s : Store) where
  dispatch : String → String → String → Method → S.State → Answer × S.State
  dispatch service domain client (acquires ttl) st =
      let (b, st') = execute S (try_acquire_lock s service domain client ttl) st in (granted b, st')
  dispatch service domain client releases st =
      let (_, st') = execute S (release_lock s service domain client) st in (released, st')
  dispatch service domain client (renews ttl) st =
      let (l, st') = execute S (keep_alive format_int s service domain client ttl) st in
      (leased l, st')

  unfoldable pub perform : Call → S.State → Answer × S.State
  unfolding dispatch
  perform c st = dispatch c.service c.domain c.client c.method st

  unfoldable pub after_all : List Call → S.State → S.State
  after_all [] st = st
  after_all (c ∷ cs) st = after_all cs (perform c st).1

  -- Whether some call acquires the lock of the service and the domain.
  unfoldable pub some_wins : String → String → List Call → S.State → Bool
  some_wins service domain [] st = false
  some_wins service domain (c ∷ cs) st =
      let rest = some_wins service domain cs (perform c st).1 in
      if str_eq service c.service && str_eq domain c.domain && wins (perform c st).0
      then true
      else rest

module _ (S : Server Request Reply) (row : S.State → String → String → Option Row) (s : Store)
    (P : IsPrepared s) (Y : IsScylla S s.full_table_name row) (F : IsFresh S s.full_table_name row)
    (format_int : ℤ → String) where
  dispatch_apart :
      (service domain a : String) (m : Method) (st : S.State) (u e : String)
      → (u ≢ service) ⊎ (e ≢ domain)
      → row (dispatch S format_int s service domain a m st).1 u e ≡ row st u e
  unfolding dispatch
  dispatch_apart service domain a (acquires ttl) st u e n =
      (other_rows_kept S row s P Y service domain a ttl st u e n format_int).0
  dispatch_apart service domain a releases st u e n =
      (other_rows_kept S row s P Y service domain a (pos 0) st u e n format_int).1
  dispatch_apart service domain a (renews ttl) st u e n =
      (other_rows_kept S row s P Y service domain a ttl st u e n format_int).2

  dispatch_same :
      (service domain a : String) (m : Method) (st : S.State) (b : String) (expiry : ℤ)
      → row st service domain ≡ some (b, expiry)
      → b ≢ a
      → (wins (dispatch S format_int s service domain a m st).0 ≡ false)
        × (row (dispatch S format_int s service domain a m st).1 service domain ≡ some (b, expiry))
  unfolding dispatch
  dispatch_same service domain a (acquires ttl) st b expiry held other =
      ground (arith, try_acquire_lock-foreign S row s P Y service domain a st b other F ttl)
  dispatch_same service domain a releases st b expiry held other =
      ground (arith, release_lock-foreign S row s P Y service domain a st b other F)
  dispatch_same service domain a (renews ttl) st b expiry held other =
      ground (
        arith,
        keep_alive_keeps_row S row s P Y format_int service domain a ttl st (b, expiry) held,
      )

  perform_other :
      (c : Call) (st : S.State) (service domain b : String) (expiry : ℤ)
      → row st service domain ≡ some (b, expiry)
      → b ≢ c.client
      → (str_eq service c.service && str_eq domain c.domain && wins (perform S format_int s c st).0
          ≡ false)
        × (row (perform S format_int s c st).1 service domain ≡ some (b, expiry))
  unfolding perform
  perform_other c st service domain b expiry held other = elim (str_dec service c.service) [
    | no n ↦
        ground
          (arith, dispatch_apart c.service c.domain c.client c.method st service domain (inl n))
    | yes p ↦ elim (str_dec domain c.domain) [
      | no n ↦
          ground
            (arith, dispatch_apart c.service c.domain c.client c.method st service domain (inr n))
      | yes q ↦
          ground (arith, dispatch_same service domain c.client c.method st b expiry held other)
    ]
  ]

  -- Where selections are up to date, which a store at CONSISTENCY_ONE does not get: while a client holds a
  -- lock, no lock call of another client acquires it, and all of them leave the row as it was, whatever
  -- requests fail.
  pub holder_keeps_row :
      (cs : List Call) (st : S.State) (service domain b : String) (expiry : ℤ)
      → row st service domain ≡ some (b, expiry)
      → FromOthers b cs
      → (some_wins S format_int s service domain cs st ≡ false)
        × (row (after_all S format_int s cs st) service domain ≡ some (b, expiry))
  unfolding after_all some_wins
  holder_keeps_row [] st service domain b expiry held others = (refl, held)
  holder_keeps_row (c ∷ cs) st service domain b expiry held others =
      let (no_luck, still) = perform_other c st service domain b expiry held others.0 in
      let (rest, kept) =
        holder_keeps_row cs (perform S format_int s c st).1 service domain b expiry still
          others.1 in
      (rw (no_luck, rest), kept)
