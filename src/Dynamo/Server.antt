-- ===== src/Dynamo/Server.antt =====
-- What internal/store/dynamodb relies on of DynamoDB, as documented.
-- `item s t k` is the item of table `t` with primary key `k` in state `s`.
use quorum_quest.Prelude.{
  ltb_ℤ, Bool, true, false, not, ◌&&◌, ◌||◌, String, str_eq, ◌≡◌, ◌≢◌, ◌⊎◌, Option, none, some,
}
use quorum_quest.Program.{Result, ok, err, Server}
use quorum_quest.Dynamo.{
  Attribute, text, number, Item, assign, Condition, attribute_not_exists, less, equal, at_least,
  either, both, Request, Reply, put_item, get_item, delete_item, update_item, Error,
  condition_failed, other,
}

-- A comparison with an attribute that is not there, or of another kind, is false.
abbrev pub is_less : Option Attribute → Attribute → Bool
is_less (some (number a)) (number b) = ltb_ℤ a b
is_less _ _ = false

abbrev pub is_at_least : Option Attribute → Attribute → Bool
is_at_least (some (number a)) (number b) = not (ltb_ℤ a b)
is_at_least _ _ = false

abbrev pub is_equal : Option Attribute → Attribute → Bool
is_equal (some (text a)) (text b) = str_eq a b
is_equal _ _ = false

abbrev pub is_none {ℓ} : {A : Type ℓ} → Option A → Bool
is_none none = true
is_none (some a) = false

abbrev pub attribute : Option Item → String → Option Attribute
attribute none name = none
attribute (some i) name = i name

-- What a condition means for the item that is there, if one is: `meets c i`.
pub record IsMeaning (meets : Condition → Option Item → Bool) : Type 0 where
  pub on_not_exists :
      (n : String) (i : Option Item) → meets (attribute_not_exists n) i ≡ is_none (attribute i n)
  pub on_less :
      (n : String) (v : Attribute) (i : Option Item)
      → meets (less n v) i ≡ is_less (attribute i n) v
  pub on_equal :
      (n c : String) (i : Option Item)
      → meets (equal n (text c)) i ≡ is_equal (attribute i n) (text c)
  pub on_at_least :
      (n : String) (v : Attribute) (i : Option Item)
      → meets (at_least n v) i ≡ is_at_least (attribute i n) v
  pub on_either :
      (c d : Condition) (i : Option Item) → meets (either c d) i ≡ (meets c i || meets d i)
  pub on_both : (c d : Condition) (i : Option Item) → meets (both c d) i ≡ (meets c i && meets d i)

-- What the reply to a conditional write tells of the item before and after: `met` is what the
-- condition says of the item before, `next` the item written. A request that fails otherwise may
-- have been carried out, or not.
abbrev pub WriteTells :
    Bool → Option Item → Option Item → Option Item → Result Error (Unit {0}) → Type 0
WriteTells met next before after (ok u) = (met ≡ true) × (after ≡ next)
WriteTells met next before after (err condition_failed) = (met ≡ false) × (after ≡ before)
WriteTells met next before after (err (other m)) =
    (after ≡ before) ⊎ ((met ≡ true) × (after ≡ next))

abbrev pub DeleteTells : Option Item → Option Item → Result Error (Unit {0}) → Type 0
DeleteTells before after (ok u) = after ≡ none
DeleteTells before after (err e) = (after ≡ before) ⊎ (after ≡ none)

-- An up-to-date read.
abbrev pub ReadTells : Option Item → Result Error (Option Item) → Type 0
ReadTells before (ok i) = i ≡ before
ReadTells before (err e) = Unit {0}

-- The item with one attribute set.
abbrev pub updated : String → Attribute → Option Item → Option Item
updated n v none = none
updated n v (some i) = some (assign n v i)

module _ (S : Server Request Reply) (item : S.State → String → String → Option Item)
    (meets : Condition → Option Item → Bool) where
  pub record IsDynamo : Type 0 where
    pub meaning : IsMeaning meets
    pub on_put :
        (s : S.State) (t k : String) (i : Item) (c : Condition)
        → i "PK" ≡ some (text k)
        → let (r, s') = S.handle (put_item t i c) s in
          WriteTells (meets c (item s t k)) (some i) (item s t k) (item s' t k) r
    -- An update of an item that is there.
    pub on_update :
        (s : S.State) (t k n : String) (v : Attribute) (c : Condition)
        → meets c none ≡ false
        → let (r, s') = S.handle (update_item t k n v c) s in
          WriteTells (meets c (item s t k)) (updated n v (item s t k)) (item s t k) (item s' t k) r
    pub on_delete :
        (s : S.State) (t k : String)
        → let (r, s') = S.handle (delete_item t k) s in DeleteTells (item s t k) (item s' t k) r
    -- No request touches another key, and reads none at all.
    pub get_frame :
        (s : S.State) (t k u j : String) → item (S.handle (get_item t k) s).1 u j ≡ item s u j
    pub put_frame :
        (s : S.State) (t k : String) (i : Item) (c : Condition) (j : String)
        → i "PK" ≡ some (text k)
        → j ≢ k
        → item (S.handle (put_item t i c) s).1 t j ≡ item s t j
    pub update_frame :
        (s : S.State) (t k n : String) (v : Attribute) (c : Condition) (j : String)
        → j ≢ k
        → item (S.handle (update_item t k n v c) s).1 t j ≡ item s t j
    pub delete_frame :
        (s : S.State) (t k j : String)
        → j ≢ k
        → item (S.handle (delete_item t k) s).1 t j ≡ item s t j

module _ (S : Server Request Reply) (item : S.State → String → String → Option Item) where
  -- Reads see the writes before them. DynamoDB promises it for consistent reads only.
  pub record IsFresh : Type 0 where
    pub on_get : (s : S.State) (t k : String) → ReadTells (item s t k) (S.handle (get_item t k) s).0

abbrev pub Answers : {A : Type 0} → Result Error A → Type 0
Answers (ok a) = Unit {0}
Answers (err condition_failed) = Unit {0}
Answers (err (other m)) = ⊥

abbrev pub Succeeds : {A : Type 0} → Result Error A → Type 0
Succeeds (ok a) = Unit {0}
Succeeds (err e) = ⊥

-- Every request is answered; a conditional write may be answered by a failed condition.
module _ (S : Server Request Reply) where
  pub record IsHealthy : Type 0 where
    pub put_answers :
        (s : S.State) (t : String) (i : Item) (c : Condition)
        → Answers (S.handle (put_item t i c) s).0
    pub update_answers :
        (s : S.State) (t k n : String) (v : Attribute) (c : Condition)
        → Answers (S.handle (update_item t k n v c) s).0
    pub get_answers : (s : S.State) (t k : String) → Succeeds (S.handle (get_item t k) s).0
    pub delete_answers : (s : S.State) (t k : String) → Succeeds (S.handle (delete_item t k) s).0
