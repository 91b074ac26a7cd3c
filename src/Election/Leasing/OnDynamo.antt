-- ===== src/Election/Leasing/OnDynamo.antt =====
-- The DynamoDB store of internal/store/dynamodb/dynamodb_store.go leases, against any DynamoDB that keeps
-- the laws of Dynamo/Server.antt. A moment is a whole number of seconds.
use quorum_quest.Prelude.{
  ℕ, ℤ, pos, plus, ltb_ℤ, is_negative, false, Bool, String, str_dec, Option, some, ◌≡◌, ◌≢◌, inl,
  inr, subst, sym, arith,
}
use quorum_quest.Program.{Server, execute}
use quorum_quest.Dynamo.{
  Item, Condition, Request, Reply, Store, lock_key, lock_item, resolve_ttl, try_acquire_lock,
  keep_alive,
}
use quorum_quest.Dynamo.Server.{IsDynamo, IsFresh}
use quorum_quest.Dynamo.Leases.{Holds, lock_item-Holds, other_items_kept}
use quorum_quest.Service.Stores.{dynamo_store}
use quorum_quest.Election.Leased.{updated-Holds}
use quorum_quest.Election.Leasing.{IsLeasing, KeepsLeases}
use quorum_quest.Election.Leasing.Calls.{ltb_ℤ_trans, ltb_ℤ_irrefl}
use quorum_quest.Election.Leasing.Table.{
  AllKeyed, IsLeasedUntil, equal_Holds, acquired, kept, acquired-keyed, dropped-keyed, kept-keyed,
  acquired-foreign, dropped-foreign, kept-foreign,
}

-- The clock is the store's own.
abbrev pub same_database : {State : Type 0} → ℕ → State → State
same_database now st = st

one_name :
    (i : Option Item) (x y : String) (u v : ℤ) → IsLeasedUntil i x u → IsLeasedUntil i y v → x ≡ y
one_name i x y u v a b = ground (arith, a.holds.of_client, b.holds.of_client)

moved :
    {i j : Option Item} {x : String} {until : ℤ}
    → j ≡ i
    → IsLeasedUntil i x until
    → IsLeasedUntil j x until
moved {i} {j} {x} {until} e h = subst (λ k. IsLeasedUntil k x until) (sym e) h

module _ (S : Server Request Reply) (item : S.State → String → String → Option Item)
    (meets : Condition → Option Item → Bool) (D : IsDynamo S item meets) (F : IsFresh S item)
    (s : Store) where
  abbrev pub Leased : ℕ → S.State → String → String → String → ℤ → Type 0
  Leased now st u e x until = IsLeasedUntil (item st s.table_name (lock_key u e)) x until

  abbrev pub Sound : S.State → Type 0
  Sound st = AllKeyed (item st s.table_name)

  module _ (now : ℕ) (service domain a : String) (ttl : ℤ) (st : S.State) where
    abbrev pk : String
    pk = lock_key service domain

    abbrev renewed : ℤ
    renewed = plus now (resolve_ttl s ttl)

    put_leased :
        (until : ℤ)
        → ltb_ℤ renewed until ≡ false
        → IsLeasedUntil (some (lock_item pk a renewed)) a until
    put_leased until bound = record {
      expiry = renewed;
      holds = lock_item-Holds pk a renewed;
      covers = bound;
    }

    -- What a call leaves of a lease, where it keeps the leases of others and what other keys hold, and
    -- leaves the caller's own item as it was or renewed.
    keeps_by :
        (st' : S.State)
        → ((x key : String)
            → x ≢ a
            → (expiry : ℤ) → Holds (item st s.table_name key) x expiry
            → ltb_ℤ expiry (pos now) ≡ false
            → item st' s.table_name key ≡ item st s.table_name key)
        → ((key : String) → key ≢ pk → item st' s.table_name key ≡ item st s.table_name key)
        → ((until : ℤ)
            → IsLeasedUntil (item st s.table_name pk) a until
            → ltb_ℤ renewed until ≡ false
            → IsLeasedUntil (item st' s.table_name pk) a until)
        → KeepsLeases S
            (dynamo_store s)
            same_database
            (resolve_ttl s)
            Leased
            Sound
            now
            a
            renewed
            st
            st'
    keeps_by st' foreign apart own u e x until held valid bound = elim (str_dec x a) [
      | no other ↦
          moved
            (foreign x (lock_key u e) other held.expiry held.holds
              (ltb_ℤ_trans held.expiry until (pos now) held.covers valid))
            held
      | yes mine ↦ elim (str_dec (lock_key u e) pk) [
        | no n ↦ moved (apart (lock_key u e) n) held
        | yes k ↦
            subst (λ y. IsLeasedUntil (item st' s.table_name (lock_key u e)) y until) (sym mine)
              (subst (λ j. IsLeasedUntil (item st' s.table_name j) a until) (sym k)
                (own until
                  (subst (λ j. IsLeasedUntil (item st s.table_name j) a until) k
                    (subst (λ y. IsLeasedUntil (item st s.table_name (lock_key u e)) y until) mine
                      held))
                  (bound mine)))
      ]
    ]

    acquire_own :
        let st' = (execute S (try_acquire_lock s now service domain a ttl) st).1 in
        (until : ℤ)
        → IsLeasedUntil (item st s.table_name pk) a until
        → ltb_ℤ renewed until ≡ false
        → IsLeasedUntil (item st' s.table_name pk) a until
    acquire_own until held bound =
        elim (acquired S item meets D F s now service domain a ttl st).1 [
          | inl same ↦ moved same held
          | inr next ↦ moved next (put_leased until bound)
        ]

    renew_own :
        let st' = (execute S (keep_alive s now service domain a ttl) st).1 in
        (until : ℤ)
        → IsLeasedUntil (item st s.table_name pk) a until
        → ltb_ℤ renewed until ≡ false
        → IsLeasedUntil (item st' s.table_name pk) a until
    renew_own until held bound = elim (kept S item meets D F s now service domain a ttl st).1 [
      | inl same ↦ moved same held
      | inr next ↦ moved next (record {
        expiry = renewed;
        holds = updated-Holds (item st s.table_name pk) a held.expiry renewed held.holds;
        covers = bound;
      })
    ]

    renew_leases :
        AllKeyed (item st s.table_name)
        → let (l, st') = execute S (keep_alive s now service domain a ttl) st in
          is_negative l ≡ false → IsLeasedUntil (item st' s.table_name pk) a renewed
    renew_leases well answered =
        let (own, next) = (kept S item meets D F s now service domain a ttl st).0 answered in
        moved next (record {
          expiry = renewed;
          holds = equal_Holds (item st s.table_name pk) a renewed (well pk) own;
          covers = ltb_ℤ_irrefl renewed;
        })

  -- Where reads are up to date, the DynamoDB store leases its locks: an item that carries its table's key
  -- and the client, with its ExpiresAt at the moment in question or later. Requests may fail, and the
  -- clock stands still during a call.
  pub dynamo_store-IsLeasing :
      IsLeasing S (dynamo_store s) same_database (resolve_ttl s) Leased Sound
  dynamo_store-IsLeasing = record {
    one_holder = λ now st u e x y v w. one_name (item st s.table_name (lock_key u e)) x y v w;
    pass_keeps = λ now later st u e x until h held valid. held;
    pass_sound = λ later st well. well;
    acquire = λ now st service domain a ttl well fits. (
      acquired-keyed S item meets D F s now service domain a ttl st well,
      λ granted. moved ((acquired S item meets D F s now service domain a ttl st).0 granted) (
          put_leased now service domain a ttl st (plus now (resolve_ttl s ttl))
            (ltb_ℤ_irrefl (plus now (resolve_ttl s ttl)))),
      keeps_by now service domain a ttl st _
          (acquired-foreign S item meets D F s now service domain a ttl st)
          (λ key n. (other_items_kept S item meets D s now service domain a ttl st key n).0)
          (acquire_own now service domain a ttl st),
    );
    release = λ now st service domain a well. (
      dropped-keyed S item meets D F s now service domain a s.ttl st well,
      λ u e x until held valid other.
          moved
            (dropped-foreign S item meets D F s now service domain a s.ttl st x (lock_key u e) other
              held.expiry held.holds (ltb_ℤ_trans held.expiry until (pos now) held.covers valid))
            held,
    );
    renew = λ now st service domain a ttl well fits. (
      kept-keyed S item meets D F s now service domain a ttl st well,
      renew_leases now service domain a ttl st well,
      keeps_by now service domain a ttl st _
          (kept-foreign S item meets D F s now service domain a ttl st)
          (λ key n. (other_items_kept S item meets D s now service domain a ttl st key n).2)
          (renew_own now service domain a ttl st),
    );
  }
