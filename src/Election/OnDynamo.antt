-- ===== src/Election/OnDynamo.antt =====
-- Elections over the DynamoDB store of internal/store/dynamodb/dynamodb_store.go at one reading of the
-- clock, against any DynamoDB that keeps the laws of Dynamo/Server.antt.
use quorum_quest.Prelude.{
  ℕ, ℤ, pos, plus, ltb_ℤ, is_positive, is_negative, Bool, true, false, String, str_dec, Option,
  some, subst, ◌≡◌, ◌⊎◌, inl, inr, sym, ◌∙◌, ap, arith,
}
use quorum_quest.Program.{Server, execute}
use quorum_quest.Lease.{no_lease_negative}
use quorum_quest.Dynamo.{
  text, number, Item, Condition, equal, may_take, lock_item, Request, Reply, Store, lock_key,
  resolve_ttl, try_acquire_lock, release_lock, keep_alive,
}
use quorum_quest.Dynamo.Server.{IsDynamo, IsFresh, is_equal, attribute, updated}
use quorum_quest.Dynamo.Leases.{
  lock_item_pk, lock_item-Holds, try_acquire_lock-foreign, release_lock-foreign, keep_alive-foreign,
  other_items_kept, equal_free,
}
use quorum_quest.Client.{Client, to_seconds, lock_request}
use quorum_quest.Service.Handlers.{keep_alive-serving}
use quorum_quest.Service.Stores.{dynamo_store}
use quorum_quest.Election.{Delivery, tick}
use quorum_quest.Election.Contract.{
  Keeps-same, Keeps-of, KeepsFrom-of, Grants-of, KeepsFrom-same, IsSafe,
}
use quorum_quest.Election.Calls.{tick_negative}
use quorum_quest.Election.Leased.{holder_at, holder_at-Holds, holder_at-IsLeased, updated-Holds}

module _ (S : Server Request Reply) (item : S.State → String → String → Option Item)
    (meets : Condition → Option Item → Bool) (D : IsDynamo S item meets) (F : IsFresh S item)
    (s : Store) (positive : is_positive s.ttl ≡ true) (now : ℕ) where
  abbrev pub holder : S.State → String → String → Option String
  holder st u e = holder_at now (item st s.table_name (lock_key u e))

  unexpired : (ttl : ℤ) → ltb_ℤ (plus now (resolve_ttl s ttl)) (pos now) ≡ false
  unfolding resolve_ttl
  unexpired ttl = ground arith

  module _ (st : S.State) (service domain a : String) (ttl : ℤ) where
    abbrev pk : String
    pk = lock_key service domain

    abbrev put : Item
    put = lock_item pk a (plus now (resolve_ttl s ttl))

    put_held : holder_at now (some put) ≡ some a
    put_held =
        holder_at-Holds now (some put) a (plus now (resolve_ttl s ttl))
          (lock_item-Holds pk a (plus now (resolve_ttl s ttl))) (unexpired ttl)

    acquire_grants_key :
        (execute S (try_acquire_lock s now service domain a ttl) st).0 ≡ true
        → holder (execute S (try_acquire_lock s now service domain a ttl) st).1 service domain
          ≡ some a
    unfolding try_acquire_lock
    acquire_grants_key granted = ground (
      arith,
      D.on_put st s.table_name pk put (may_take a now)
          (lock_item_pk pk a (plus now (resolve_ttl s ttl))),
      put_held,
    )

    acquire_keeps_own :
        holder st service domain ≡ some a
        → holder (execute S (try_acquire_lock s now service domain a ttl) st).1 service domain
          ≡ some a
    unfolding try_acquire_lock
    acquire_keeps_own held = ground (
      arith,
      D.on_put st s.table_name pk put (may_take a now)
          (lock_item_pk pk a (plus now (resolve_ttl s ttl))),
      put_held,
    )

    acquire_keeps_key :
        (x : String)
        → holder st service domain ≡ some x
        → holder (execute S (try_acquire_lock s now service domain a ttl) st).1 service domain
          ≡ some x
    acquire_keeps_key x held = elim (str_dec x a) [
      | yes own ↦
          subst
            (λ y.
              holder (execute S (try_acquire_lock s now service domain a ttl) st).1 service domain
              ≡ some y)
            (sym own) (acquire_keeps_own (held ∙ ap some own))
      | no other ↦
          let leased = holder_at-IsLeased now (item st s.table_name pk) x held in
          ap (holder_at now)
            (try_acquire_lock-foreign S item meets D s now service domain a ttl st x leased.expiry
              leased.holds other leased.valid).1
          ∙ held
    ]

    renew_keeps_own :
        holder st service domain ≡ some a
        → holder (execute S (keep_alive s now service domain a ttl) st).1 service domain ≡ some a
    unfolding keep_alive
    renew_keeps_own held =
        let leased = holder_at-IsLeased now (item st s.table_name pk) a held in
        let renewed = plus now (resolve_ttl s ttl) in
        ground (
          arith,
          D.on_update st s.table_name pk "ExpiresAt" (number renewed) (equal "ClientID" (text a))
              (equal_free meets D.meaning a),
          holder_at-Holds now (updated "ExpiresAt" (number renewed) (item st s.table_name pk)) a
              renewed (updated-Holds (item st s.table_name pk) a leased.expiry renewed leased.holds)
              (unexpired ttl),
        )

    renew_keeps_key :
        (x : String)
        → holder st service domain ≡ some x
        → holder (execute S (keep_alive s now service domain a ttl) st).1 service domain ≡ some x
    renew_keeps_key x held = elim (str_dec x a) [
      | yes own ↦
          subst
            (λ y.
              holder (execute S (keep_alive s now service domain a ttl) st).1 service domain
              ≡ some y)
            (sym own) (renew_keeps_own (held ∙ ap some own))
      | no other ↦
          let leased = holder_at-IsLeased now (item st s.table_name pk) x held in
          ap (holder_at now)
            (keep_alive-foreign S item meets D s now service domain a ttl st x leased.expiry
              leased.holds other).1
          ∙ held
    ]

    release_keeps_key :
        (x : String)
        → holder st service domain ≡ some x
        → (x ≡ a)
          ⊎ (holder (execute S (release_lock s service domain a) st).1 service domain ≡ some x)
    release_keeps_key x held = elim (str_dec x a) [
      | yes own ↦ inl own
      | no other ↦
          let leased = holder_at-IsLeased now (item st s.table_name pk) x held in
          inr (
            ap (holder_at now) (
              release_lock-foreign S item meets D s now service domain a ttl st x leased.expiry
                leased.holds other F)
            ∙ held)
    ]

  -- At one reading of the clock, where the TTL of the store is positive and reads are up to date, the
  -- DynamoDB store keeps the contract of an election, for the leases that have not run out.
  pub dynamo_store-IsSafe : IsSafe S (dynamo_store s now) holder
  dynamo_store-IsSafe = record {
    acquire_grants = λ st service domain a ttl fits.
        Grants-of a _ _ (acquire_grants_key st service domain a ttl);
    acquire_keeps = λ st service domain a ttl u e fits.
        elim (str_dec (lock_key u e) (lock_key service domain)) [
          | yes p ↦ rw p (Keeps-of _ _ (acquire_keeps_key st service domain a ttl))
          | no n ↦ Keeps-same _ _ (
              ap (holder_at now)
                (other_items_kept S item meets D s now service domain a ttl st _ n).0)
        ];
    release_keeps = λ st service domain a u e.
        elim (str_dec (lock_key u e) (lock_key service domain)) [
          | yes p ↦ rw p (KeepsFrom-of a _ _ (release_keeps_key st service domain a s.ttl))
          | no n ↦ KeepsFrom-same a _ _ (
              ap (holder_at now)
                (other_items_kept S item meets D s now service domain a s.ttl st _ n).1)
        ];
    renew_keeps = λ st service domain a ttl u e fits.
        elim (str_dec (lock_key u e) (lock_key service domain)) [
          | yes p ↦ rw p (Keeps-of _ _ (renew_keeps_key st service domain a ttl))
          | no n ↦ Keeps-same _ _ (
              ap (holder_at now)
                (other_items_kept S item meets D s now service domain a ttl st _ n).2)
        ];
  }

  lost_lease :
      (st : S.State) (service domain a : String) (ttl : ℤ)
      → is_equal (attribute (item st s.table_name (lock_key service domain)) "ClientID") (text a)
        ≡ false
      → is_negative (execute S (keep_alive s now service domain a ttl) st).0 ≡ true
  unfolding keep_alive
  lost_lease st service domain a ttl lost =
      let key = lock_key service domain in
      let renewed = plus now (resolve_ttl s ttl) in
      ground (
        arith,
        D.on_update st s.table_name key "ExpiresAt" (number renewed) (equal "ClientID" (text a))
            (equal_free meets D.meaning a),
        D.meaning.on_equal "ClientID" a (item st s.table_name key),
        no_lease_negative,
      )

  -- A client whose item in the table is another's by now, or is gone, stops counting itself leader at
  -- its next keep-alive, whatever fails, and whether the request and its answer arrive or not.
  pub tick_steps_down_dynamo :
      (metric : Option String) (d : Delivery) (q : Client) (st : S.State)
      → is_equal
          (attribute (item st s.table_name (lock_key q.service q.domain)) "ClientID")
          (text q.id)
        ≡ false
      → (tick S (dynamo_store s now) metric d q st).0.is_leader ≡ false
  unfolding tick lock_request
  tick_steps_down_dynamo metric d q st lost =
      rw (keep_alive-serving S (dynamo_store s now) st metric (lock_request q))
        (tick_negative q d _ (lost_lease st q.service q.domain q.id (to_seconds q.ttl) lost))
