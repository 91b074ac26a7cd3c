-- ===== src/Config/Overrides/Paths.antt =====
-- internal/config/config.go, applyEnvironmentOverrides: the value of each field past the overrides, by its
-- path through the structs.
use quorum_quest.Prelude.{
  String, str_eq, ◌<>◌, Bool, true, false, ◌&&◌, ◌||◌, Option, some, none, List, [], ◌∷◌, inl, inr,
  Option-cases, ◌≡◌, ◌≢◌, refl, ap, sym, ◌∙◌, false≢true, arith, if◌then◌else◌,
}
use quorum_quest.Config.Overrides.{
  Value, text, number, natural, float_32, float_64, boolean, texts, group, nil_pointer, untouched,
  Fields, no_more, field, points_to, Parsers, apply_env_override, process_struct, process_field,
  apply_environment_overrides,
}
use quorum_quest.Config.Overrides.Reads.{is_leaf, Overrides, reads_past}

unfoldable pub find : String → Fields → Option Value
find name no_more = none
find name (field n x fs) = let rest = find name fs in if str_eq n name then some x else rest

-- What stands at a path of names.
unfoldable pub at : List String → Value → Option Value
at [] x = some x
at (n ∷ path) (group fs) = elim (find n fs) [ none ↦ none | some x ↦ at path x ]
at (n ∷ path) x = none

module _ (look_up_env : String → Option String) (parsers : Parsers) (upper : String → String)
    (split : String → List String) (trim : String → String) where
  abbrev override_value : Value → String → Value
  override_value = apply_env_override look_up_env parsers upper split trim

  abbrev override_fields : Fields → String → Fields
  override_fields = process_struct look_up_env parsers upper split trim

  abbrev override_field : String → Value → String → Value
  override_field = process_field look_up_env parsers upper split trim

  -- The variable of a path.
  abbrev pub variable : String → List String → String
  variable prefix [] = prefix
  variable prefix (n ∷ path) = variable (prefix <> "_" <> upper n) path

  -- The type of the backend, which the environment sets elsewhere.
  abbrev pub is_backend_type : String → List String → Bool
  is_backend_type prefix [] = false
  is_backend_type prefix (n ∷ path) =
      (str_eq n "type" && str_eq prefix "QUORUMQUEST_BACKEND")
      || is_backend_type (prefix <> "_" <> upper n) path

  -- The first field of a name is overridden in its place.
  find-process_struct :
      (name prefix : String) (fs : Fields) (x : Value)
      → find name fs ≡ some x
      → find name (override_fields fs prefix) ≡ some (override_field name x prefix)
  unfolding find process_struct
  find-process_struct name prefix no_more x h = ground arith
  find-process_struct name prefix (field n y fs) x h =
      ground (arith, find-process_struct name prefix fs x)

  -- What the overrides make of a value by the name of its variable, or of the prefix of its fields'.
  abbrev past : Value → String → Value
  past (group fs) name = group (override_fields fs name)
  past x name = override_value x name

  process_field_past :
      (n prefix : String) (x : Value)
      → override_field n x prefix ≡ (
          if str_eq n "type" && str_eq prefix "QUORUMQUEST_BACKEND"
          then x
          else past x (prefix <> "_" <> upper n))
  unfolding process_field
  process_field_past n prefix (group fs) = refl
  process_field_past n prefix (text s) = refl
  process_field_past n prefix (number w m) = refl
  process_field_past n prefix (natural w m) = refl
  process_field_past n prefix (float_32 y) = refl
  process_field_past n prefix (float_64 y) = refl
  process_field_past n prefix (boolean b) = refl
  process_field_past n prefix (texts ss) = refl
  process_field_past n prefix nil_pointer = refl
  process_field_past n prefix untouched = refl

  past_leaf : (x : Value) (name : String) → is_leaf x ≡ true → past x name ≡ override_value x name
  past_leaf (group fs) name h = absurd (false≢true h)
  past_leaf (text s) name h = refl
  past_leaf (number w n) name h = refl
  past_leaf (natural w n) name h = refl
  past_leaf (float_32 y) name h = refl
  past_leaf (float_64 y) name h = refl
  past_leaf (boolean b) name h = refl
  past_leaf (texts ss) name h = refl
  past_leaf nil_pointer name h = refl
  past_leaf untouched name h = refl

  at_field :
      (n : String) (path : List String) (fs : Fields) (x : Value)
      → find n fs ≡ some x
      → at (n ∷ path) (group fs) ≡ at path x
  unfolding at
  at_field n path fs x there = rw (there, at) refl

  at_nothing :
      (n : String) (path : List String) (fs : Fields)
      → find n fs ≡ none
      → at (n ∷ path) (group fs) ≡ none
  unfolding at
  at_nothing n path fs missing = rw (missing, at) refl

  not_there : {x : Option Value} {y : Value} → x ≡ none → x ≢ some y
  not_there e h = cc

  at_end : (x leaf : Value) → at [] x ≡ some leaf → x ≡ leaf
  unfolding at
  at_end x leaf h = cc

  at_root :
      (x : Value) (name : String)
      → is_leaf x ≡ true
      → at [] (past x name) ≡ some (override_value x name)
  unfolding at
  at_root x name l = ap some (past_leaf x name l)

  at_chosen :
      (b r : Bool) (path : List String) (x y leaf z : Value)
      → at path x ≡ some leaf
      → at path y ≡ some (if r then leaf else z)
      → at path (if b then x else y) ≡ some (if b || r then leaf else z)
  at_chosen true r path x y leaf z h k = h
  at_chosen false r path x y leaf z h k = k

  no_field :
      (n : String) (path : List String) (x leaf : Value)
      → is_leaf x ≡ true
      → at (n ∷ path) x ≢ some leaf
  unfolding at
  no_field n path (text s) leaf l e = cc
  no_field n path (number w m) leaf l e = cc
  no_field n path (natural w m) leaf l e = cc
  no_field n path (float_32 y) leaf l e = cc
  no_field n path (float_64 y) leaf l e = cc
  no_field n path (boolean b) leaf l e = cc
  no_field n path (texts ss) leaf l e = cc
  no_field n path nil_pointer leaf l e = cc
  no_field n path untouched leaf l e = cc
  no_field n path (group fs) leaf l e = false≢true l

  at-past :
      (path : List String) (name : String) (x leaf : Value)
      → at path x ≡ some leaf
      → is_leaf leaf ≡ true
      → at path (past x name)
        ≡ some
            (if is_backend_type name path then leaf else override_value leaf (variable name path))
  at-past [] name x leaf h l = rw (at_end x leaf h) (at_root leaf name l)
  at-past (n ∷ path) name (group fs) leaf h l = elim (Option-cases (find n fs)) [
    | inl missing ↦ absurd (not_there (at_nothing n path fs missing) h)
    | inr (x, there) ↦
        let below = sym (at_field n path fs x there) ∙ h in
        at_field n path (override_fields fs name) (override_field n x name)
          (find-process_struct n name fs x there)
        ∙ ap (at path) (process_field_past n name x)
        ∙ at_chosen (str_eq n "type" && str_eq name "QUORUMQUEST_BACKEND")
            (is_backend_type (name <> "_" <> upper n) path) path x (past x (name <> "_" <> upper n))
            leaf (override_value leaf (variable (name <> "_" <> upper n) path)) below
            (at-past path (name <> "_" <> upper n) x leaf below l)
  ]
  at-past (n ∷ path) name (text s) leaf h l = absurd (no_field n path (text s) leaf refl h)
  at-past (n ∷ path) name (number w m) leaf h l = absurd (no_field n path (number w m) leaf refl h)
  at-past (n ∷ path) name (natural w m) leaf h l =
      absurd (no_field n path (natural w m) leaf refl h)
  at-past (n ∷ path) name (float_32 y) leaf h l = absurd (no_field n path (float_32 y) leaf refl h)
  at-past (n ∷ path) name (float_64 y) leaf h l = absurd (no_field n path (float_64 y) leaf refl h)
  at-past (n ∷ path) name (boolean b) leaf h l = absurd (no_field n path (boolean b) leaf refl h)
  at-past (n ∷ path) name (texts ss) leaf h l = absurd (no_field n path (texts ss) leaf refl h)
  at-past (n ∷ path) name nil_pointer leaf h l = absurd (no_field n path nil_pointer leaf refl h)
  at-past (n ∷ path) name untouched leaf h l = absurd (no_field n path untouched leaf refl h)

  -- The value at a path past the overrides.
  pub record IsOverridden (after : Value) (path : List String) (x : Value) : Type 0 where
    value : Value
    stands : at path after ≡ some value
    overrides :
        Overrides look_up_env parsers upper split trim
          (is_backend_type "QUORUMQUEST" path)
          (look_up_env (variable "QUORUMQUEST" path))
          x
          value

  choice-Overrides :
      (b : Bool) (x : Value) (name : String)
      → is_leaf x ≡ true
      → Overrides look_up_env parsers upper split trim b
          (look_up_env name)
          x
          (if b then x else override_value x name)
  choice-Overrides true x name l = refl
  choice-Overrides false x name l = reads_past look_up_env parsers upper split trim x name l

  -- A field at any path of names through structs of structs, past the overrides: it is as it was if its
  -- variable is not set, or if it is the type of the backend. The variable is QUORUMQUEST and the
  -- names of the path in upper case, joined by underscores. If it is set, a text is its value, a
  -- number, a Boolean or a floating point number what the parser of its kind reads there, or as it was
  -- where the parser fails, a slice of texts the trimmed parts between commas. An integer in the range
  -- of its kind is stored as it is read, and of another one the low bits are.
  pub apply_environment_overrides_by_path :
      (fs : Fields) (path : List String) (x : Value)
      → at path (group fs) ≡ some x
      → is_leaf x ≡ true
      → let after = group (process_struct look_up_env parsers upper split trim fs "QUORUMQUEST") in
        (apply_environment_overrides look_up_env parsers upper split trim (points_to (group fs))
          ≡ points_to after)
        × IsOverridden after path x
  unfolding apply_environment_overrides
  apply_environment_overrides_by_path fs path x there leaf = (
    refl,
    record {
      value =
          if is_backend_type "QUORUMQUEST" path
          then x
          else override_value x (variable "QUORUMQUEST" path);
      stands = at-past path "QUORUMQUEST" (group fs) x there leaf;
      overrides =
          choice-Overrides (is_backend_type "QUORUMQUEST" path) x (variable "QUORUMQUEST" path)
            leaf;
    },
  )
