-- ===== src/Election/OnScylla.antt =====
-- Elections over the ScyllaDB store of internal/store/scylladb/scylladb_store.go, against any server that
-- keeps the laws of Scylla/Server.antt.
use quorum_quest.Prelude.{
  ℕ, zero, suc, ℤ, pos, is_positive, IsInt32, true, String, str_dec, Option, some, ◌≡◌, ◌≢◌, ◌⊎◌,
  inl, inr, sym, ap, subst, ◌∙◌, Option-cases, arith,
}
use quorum_quest.Program.{Server, execute}
use quorum_quest.Lease.{seconds, seconds_positive}
use quorum_quest.Scylla.{
  Request, Reply, Store, resolve_ttl, try_acquire_lock, release_lock, keep_alive,
}
use quorum_quest.Scylla.Server.{Row, client_of, IsPrepared, insert, IsScylla, IsFresh, IsHealthy}
use quorum_quest.Scylla.Safety.{
  try_acquire_lock_holds, verify_keeps, release_lock-foreign, other_rows_kept,
}
use quorum_quest.Scylla.KeepAlive.{keep_alive_held, keep_alive_keeps_row}
use quorum_quest.Client.{Client, to_seconds, lock_request}
use quorum_quest.Service.Handlers.{keep_alive-serving}
use quorum_quest.Service.Stores.{scylla_store}
use quorum_quest.Election.{arrives, tick}
use quorum_quest.Election.Calls.{tick_positive}
use quorum_quest.Election.Contract.{
  Keeps-same, Keeps-of, KeepsFrom-of, Grants-of, KeepsFrom-same, IsSafe,
}

-- Two pairs of texts are the same, or differ in one of the two.
pair_cases : (u v e d : String) → ((u ≡ v) × (e ≡ d)) ⊎ ((u ≢ v) ⊎ (e ≢ d))
pair_cases u v e d = elim (str_dec u v) [
  | no n ↦ inr (inl n)
  | yes p ↦ elim (str_dec e d) [ no n ↦ inr (inr n) | yes q ↦ inl (p, q) ]
]

module _ (S : Server Request Reply) (row : S.State → String → String → Option Row) (s : Store)
    (P : IsPrepared s) (Y : IsScylla S s.full_table_name row) (format_int : ℤ → String) where
  -- The client that holds the lock.
  abbrev pub holder : S.State → String → String → Option String
  holder st u e = client_of (row st u e)

  module _ (st : S.State) (service domain a : String) (ttl : ℤ) (x : String)
      (held : client_of (row st service domain) ≡ some x) where
    acquire_keeps_row :
        client_of (row (execute S (try_acquire_lock s service domain a ttl) st).1 service domain)
        ≡ some x
    unfolding try_acquire_lock
    acquire_keeps_row =
        let st' = (S.handle (insert s.full_table_name service domain a (resolve_ttl s ttl)) st).1 in
        rw P.inserts (
          ground (
            arith,
            Y.on_insert st service domain a (resolve_ttl s ttl),
            verify_keeps S row s P Y service domain a st' service domain,
          ))

    release_keeps_row :
        IsFresh S s.full_table_name row
        → (x ≡ a)
          ⊎ (client_of (row (execute S (release_lock s service domain a) st).1 service domain)
              ≡ some x)
    release_keeps_row F = elim (str_dec x a) [
      | yes own ↦ inl own
      | no other ↦
          inr (rw (release_lock-foreign S row s P Y service domain a st x other F held) held)
    ]

  renew_keeps_row :
      (st : S.State) (service domain a : String) (ttl : ℤ) (x : String)
      → client_of (row st service domain) ≡ some x
      → client_of
          (row (execute S (keep_alive format_int s service domain a ttl) st).1 service domain)
        ≡ some x
  renew_keeps_row st service domain a ttl x held = elim (Option-cases (row st service domain)) [
    | inl gone ↦ ground arith
    | inr (r, there) ↦
        ap client_of (keep_alive_keeps_row S row s P Y format_int service domain a ttl st r there)
        ∙ ap client_of (sym there)
        ∙ held
  ]

  -- Where selections are up to date, which a store at CONSISTENCY_ONE does not get, the ScyllaDB store keeps
  -- the contract of an election.
  pub scylla_store-IsSafe :
      IsFresh S s.full_table_name row → IsSafe S (scylla_store format_int s) holder
  scylla_store-IsSafe F = record {
    acquire_grants = λ st service domain a ttl fits.
        Grants-of a _ _ (λ g. (try_acquire_lock_holds S row s P Y service domain a ttl st F g).1);
    acquire_keeps = λ st service domain a ttl u e fits. elim (pair_cases u service e domain) [
      | inl (p, q) ↦ rw (p, q) (Keeps-of _ _ (acquire_keeps_row st service domain a ttl))
      | inr n ↦
          Keeps-same _ _
            (ap client_of (other_rows_kept S row s P Y service domain a ttl st u e n format_int).0)
    ];
    release_keeps = λ st service domain a u e. elim (pair_cases u service e domain) [
      | inl (p, q) ↦
          rw (p, q)
            (KeepsFrom-of a _ _ (λ x held. release_keeps_row st service domain a (pos 0) x held F))
      | inr n ↦ KeepsFrom-same a _ _ (
          ap client_of (other_rows_kept S row s P Y service domain a (pos 0) st u e n format_int).1)
    ];
    renew_keeps = λ st service domain a ttl u e fits. elim (pair_cases u service e domain) [
      | inl (p, q) ↦ rw (p, q) (Keeps-of _ _ (renew_keeps_row st service domain a ttl))
      | inr n ↦
          Keeps-same _ _
            (ap client_of (other_rows_kept S row s P Y service domain a ttl st u e n format_int).2)
    ];
  }

  -- A number of keep-alives of one client, one after the other, each answered.
  unfoldable pub keep_on : Option String → ℕ → Client × S.State → Client × S.State
  keep_on metric zero x = x
  keep_on metric (suc n) x =
      keep_on metric n (tick S (scylla_store format_int s) metric arrives x.0 x.1)

  module _ (healthy : IsHealthy S s.full_table_name) (metric : Option String) (r : Row) where
    -- The client with the lease that it is told.
    abbrev renewed : Client → Client
    renewed q = record q { remaining_lease = seconds (resolve_ttl s (to_seconds q.ttl)) }

    tick-renewed :
        (q : Client) (st : S.State)
        → IsInt32 (resolve_ttl s (to_seconds q.ttl))
        → is_positive (resolve_ttl s (to_seconds q.ttl)) ≡ true
        → row st q.service q.domain ≡ some r
        → let (q', st') = tick S (scylla_store format_int s) metric arrives q st in
          (q' ≡ renewed q) × (row st' q.service q.domain ≡ some r)
    unfolding tick lock_request
    tick-renewed q st small positive held =
        let (told, kept) =
          keep_alive_held S row s P Y format_int q.service q.domain q.id (to_seconds q.ttl) st
            healthy r held in
        rw (keep_alive-serving S (scylla_store format_int s) st metric (lock_request q)) (
          tick_positive q _ (rw told (seconds_positive _ small positive))
              ∙ ap (λ l. record q { remaining_lease = l }) told,
          kept,
        )

    -- The keep-alive of ScyllaDB never ends a leadership: where every request is answered, a client that
    -- counts itself leader goes on doing so, for any number of keep-alives, while another client
    -- holds the lock and goes on holding it.
    pub keep_on-leads :
        (n : ℕ) (q : Client) (st : S.State)
        → IsInt32 (resolve_ttl s (to_seconds q.ttl))
        → is_positive (resolve_ttl s (to_seconds q.ttl)) ≡ true
        → row st q.service q.domain ≡ some r
        → q.is_leader ≡ true
        → ((keep_on metric n (q, st)).0.is_leader ≡ true)
          × (row (keep_on metric n (q, st)).1 q.service q.domain ≡ some r)
    unfolding keep_on
    keep_on-leads zero q st small positive held leads = (leads, held)
    keep_on-leads (suc n) q st small positive held leads =
        let (same, kept) = tick-renewed q st small positive held in
        let st' = (tick S (scylla_store format_int s) metric arrives q st).1 in
        subst (λ x. (x.0.is_leader ≡ true) × (row x.1 q.service q.domain ≡ some r))
          (sym (ap (λ p. keep_on metric n (p, st')) same))
          (keep_on-leads n (renewed q) st' small positive kept leads)
