-- ===== src/Election/Leasing/Table.antt =====
-- What the lock calls of internal/store/dynamodb/dynamodb_store.go make of the table's items.
use quorum_quest.Prelude.{
  ℕ, ℤ, pos, plus, ltb_ℤ, is_negative, Bool, true, false, String, str_dec, text_ne, Option, none,
  some, ◌≡◌, ◌≢◌, ◌⊎◌, refl, sym, arith, if◌then◌else◌,
}
use quorum_quest.Program.{Server, execute}
use quorum_quest.Lease.{no_lease_negative}
use quorum_quest.Dynamo.{
  Attribute, text, number, binary, Item, Condition, equal, may_take, lock_item, Request, Reply,
  get_item, Store, lock_key, resolve_ttl, try_acquire_lock, release_lock, keep_alive,
}
use quorum_quest.Dynamo.Server.{IsDynamo, IsFresh, is_equal, is_none, attribute, updated}
use quorum_quest.Dynamo.Leases.{
  Holds, lock_item_pk, equal_free, try_acquire_lock-foreign, release_lock-foreign,
  keep_alive-foreign, other_items_kept,
}

-- An item that is there carries its table's key.
abbrev pub is_keyed : Option Item → Bool
is_keyed none = true
is_keyed (some i) = if is_none (i "PK") then false else true

abbrev pub AllKeyed : (String → Option Item) → Type 0
AllKeyed table = (key : String) → is_keyed (table key) ≡ true

-- The item is the client's, at least until the moment.
pub record IsLeasedUntil (i : Option Item) (client : String) (until : ℤ) : Type 0 where
  pub expiry : ℤ
  pub holds : Holds i client expiry
  pub covers : ltb_ℤ expiry until ≡ false

is_equal_text : (c : Option Attribute) (a : String) → is_equal c (text a) ≡ true → c ≡ some (text a)
is_equal_text (some (text c)) a own = ground arith
is_equal_text (some (number c)) a own = ground arith
is_equal_text (some (binary)) a own = ground arith
is_equal_text none a own = ground arith

-- What a keep-alive makes of the caller's own item.
pub equal_Holds :
    (i : Option Item) (a : String) (expiry : ℤ)
    → is_keyed i ≡ true
    → is_equal (attribute i "ClientID") (text a) ≡ true
    → Holds (updated "ExpiresAt" (number expiry) i) a expiry
equal_Holds none a expiry keyed own = ground arith
equal_Holds (some i) a expiry keyed own = record {
  keyed = ground (arith, text_ne "PK" "ExpiresAt" refl);
  of_client =
      ground (arith, is_equal_text (i "ClientID") a own, text_ne "ExpiresAt" "ClientID" refl);
  until = ground arith;
}

updated-keyed :
    (v : Attribute) (i : Option Item)
    → is_keyed i ≡ true
    → is_keyed (updated "ExpiresAt" v i) ≡ true
updated-keyed v none h = refl
updated-keyed v (some i) h = ground (arith, text_ne "PK" "ExpiresAt" refl)

lock_item-keyed :
    (pk client : String) (expiry : ℤ) → is_keyed (some (lock_item pk client expiry)) ≡ true
lock_item-keyed pk client expiry = ground (arith, lock_item_pk pk client expiry)

module _ (S : Server Request Reply) (item : S.State → String → String → Option Item)
    (meets : Condition → Option Item → Bool) (D : IsDynamo S item meets) (F : IsFresh S item)
    (s : Store) (now : ℕ) where
  module _ (service domain a : String) (ttl : ℤ) (st : S.State) where
    abbrev pk : String
    pk = lock_key service domain

    abbrev renewed : ℤ
    renewed = plus now (resolve_ttl s ttl)

    abbrev was : Option Item
    was = item st s.table_name (lock_key service domain)

    pub acquired :
        let (b, st') = execute S (try_acquire_lock s now service domain a ttl) st in
        let is = item st' s.table_name (lock_key service domain) in
        let put = some (lock_item (lock_key service domain) a (plus now (resolve_ttl s ttl))) in
        (b ≡ true → is ≡ put) × ((is ≡ was) ⊎ (is ≡ put))
    unfolding try_acquire_lock
    acquired = ground (
      arith,
      D.on_put st s.table_name pk (lock_item pk a renewed) (may_take a now)
          (lock_item_pk pk a renewed),
    )

    pub kept :
        let (l, st') = execute S (keep_alive s now service domain a ttl) st in
        let is = item st' s.table_name (lock_key service domain) in
        let next = updated "ExpiresAt" (number (plus now (resolve_ttl s ttl))) was in
        (is_negative l ≡ false
          → (is_equal (attribute was "ClientID") (text a) ≡ true) × (is ≡ next))
        × ((is ≡ was) ⊎ (is ≡ next))
    unfolding keep_alive
    kept = ground (
      arith,
      D.on_update st s.table_name pk "ExpiresAt" (number renewed) (equal "ClientID" (text a))
          (equal_free meets D.meaning a),
      D.meaning.on_equal "ClientID" a was,
      no_lease_negative,
    )

    pub dropped :
        let is =
          item
            (execute S (release_lock s service domain a) st).1
            s.table_name
            (lock_key service domain) in
        (is ≡ was) ⊎ (is ≡ none)
    unfolding release_lock
    dropped =
        let st' = (S.handle (get_item s.table_name pk) st).1 in
        ground
          (arith, D.get_frame st s.table_name pk s.table_name pk, D.on_delete st' s.table_name pk)

    keyed_same :
        (st' : S.State) (key : String)
        → (key ≢ pk → item st' s.table_name key ≡ item st s.table_name key)
        → is_keyed (item st' s.table_name pk) ≡ true
        → is_keyed (item st s.table_name key) ≡ true
        → is_keyed (item st' s.table_name key) ≡ true
    keyed_same st' key frame own k = elim (str_dec key pk) [
      | yes e ↦ rw e own
      | no n ↦ rw (frame n) k
    ]

    -- Every call leaves a table whose items carry their key.
    pub acquired-keyed :
        AllKeyed (item st s.table_name)
        → AllKeyed
            (item (execute S (try_acquire_lock s now service domain a ttl) st).1 s.table_name)
    acquired-keyed k key =
        keyed_same _ key
          (λ n. (other_items_kept S item meets D s now service domain a ttl st key n).0)
          (ground (arith, acquired, k pk, lock_item-keyed pk a renewed)) (k key)

    pub dropped-keyed :
        AllKeyed (item st s.table_name)
        → AllKeyed (item (execute S (release_lock s service domain a) st).1 s.table_name)
    dropped-keyed k key =
        keyed_same _ key
          (λ n. (other_items_kept S item meets D s now service domain a ttl st key n).1)
          (ground (arith, dropped, k pk)) (k key)

    pub kept-keyed :
        AllKeyed (item st s.table_name)
        → AllKeyed (item (execute S (keep_alive s now service domain a ttl) st).1 s.table_name)
    kept-keyed k key =
        keyed_same _ key
          (λ n. (other_items_kept S item meets D s now service domain a ttl st key n).2)
          (ground (arith, kept, k pk, updated-keyed (number renewed) was (k pk))) (k key)

    -- No call of another client changes an item that is leased.
    module _ (x key : String) (other : x ≢ a) (expiry : ℤ)
        (held : Holds (item st s.table_name key) x expiry)
        (valid : ltb_ℤ expiry (pos now) ≡ false) where
      pub acquired-foreign :
          item (execute S (try_acquire_lock s now service domain a ttl) st).1 s.table_name key
          ≡ item st s.table_name key
      acquired-foreign = elim (str_dec key pk) [
        | yes e ↦
            rw e
              (try_acquire_lock-foreign S item meets D s now service domain a ttl st x expiry
                (rw (sym e) held) other valid).1
        | no n ↦ (other_items_kept S item meets D s now service domain a ttl st key n).0
      ]

      pub dropped-foreign :
          item (execute S (release_lock s service domain a) st).1 s.table_name key
          ≡ item st s.table_name key
      dropped-foreign = elim (str_dec key pk) [
        | yes e ↦ rw e (
            release_lock-foreign S item meets D s now service domain a ttl st x expiry
              (rw (sym e) held) other F)
        | no n ↦ (other_items_kept S item meets D s now service domain a ttl st key n).1
      ]

      pub kept-foreign :
          item (execute S (keep_alive s now service domain a ttl) st).1 s.table_name key
          ≡ item st s.table_name key
      kept-foreign = elim (str_dec key pk) [
        | yes e ↦
            rw e
              (keep_alive-foreign S item meets D s now service domain a ttl st x expiry
                (rw (sym e) held) other).1
        | no n ↦ (other_items_kept S item meets D s now service domain a ttl st key n).2
      ]
