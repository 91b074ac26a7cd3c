-- ===== src/Config/Overrides/Typing.antt =====
-- internal/config/config.go, applyEnvironmentOverrides: the kinds of the fields past the overrides.
use quorum_quest.Prelude.{
  ℕ, ℤ, pos, negsuc, ltb, ◌*◌, ◌%◌, String, ◌<>◌, Bool, true, false, ◌&&◌, Option, List, [], inl,
  inr, Option-cases, ◌≡◌, refl, arith,
}
use quorum_quest.Config.Overrides.{
  Width, bits_8, bits_16, bits_32, bits_64, Value, text, number, natural, float_32, float_64,
  boolean, texts, group, nil_pointer, untouched, Fields, no_more, field, size, wrap, points_to,
  Parsers, apply_env_override, process_struct, process_field, apply_environment_overrides, set,
}

-- An integer that its kind can hold.
abbrev pub fits_signed : ℕ → ℤ → Bool
fits_signed n (pos m) = ltb (2 * m) n
fits_signed n (negsuc m) = ltb (2 * m) n

mutual
  -- The kinds alone, with zero values.
  pub kind_of : Value → Value
  kind_of (text s) = text ""
  kind_of (number w n) = number w (pos 0)
  kind_of (natural w n) = natural w 0
  kind_of (float_32 x) = float_32 0
  kind_of (float_64 x) = float_64 0
  kind_of (boolean b) = boolean false
  kind_of (texts ss) = texts []
  kind_of (group fs) = group (kinds_of fs)
  kind_of nil_pointer = nil_pointer
  kind_of untouched = untouched

  pub kinds_of : Fields → Fields
  kinds_of no_more = no_more
  kinds_of (field name x fs) = field name (kind_of x) (kinds_of fs)

unfoldable mutual
  pub in_range : Value → Bool
  in_range (number w n) = fits_signed (size w) n
  in_range (natural w n) = ltb n (size w)
  in_range (group fs) = all_in_range fs
  in_range _ = true

  pub all_in_range : Fields → Bool
  all_in_range no_more = true
  all_in_range (field name x fs) = in_range x && all_in_range fs

and_kept :
    (a b c d : Bool)
    → (a ≡ true → c ≡ true)
    → (b ≡ true → d ≡ true)
    → (a && b) ≡ true
    → (c && d) ≡ true
and_kept true true c d h k e = rw (h refl, k refl) refl
and_kept true false c d h k e = ground arith
and_kept false b c d h k e = ground arith

wrap_fits : (w : Width) (z : ℤ) → fits_signed (size w) (wrap (size w) z) ≡ true
wrap_fits bits_8 (pos m) = ground arith
wrap_fits bits_16 (pos m) = ground arith
wrap_fits bits_32 (pos m) = ground arith
wrap_fits bits_64 (pos m) = ground arith
wrap_fits bits_8 (negsuc m) = ground arith
wrap_fits bits_16 (negsuc m) = ground arith
wrap_fits bits_32 (negsuc m) = ground arith
wrap_fits bits_64 (negsuc m) = ground arith

mod_fits : (w : Width) (n : ℕ) → ltb (n % size w) (size w) ≡ true
mod_fits bits_8 n = ground arith
mod_fits bits_16 n = ground arith
mod_fits bits_32 n = ground arith
mod_fits bits_64 n = ground arith

module _ (look_up_env : String → Option String) (parsers : Parsers) (upper : String → String)
    (split : String → List String) (trim : String → String) where
  abbrev set_to : Value → String → Value
  set_to = set look_up_env parsers upper split trim

  abbrev override_value : Value → String → Value
  override_value = apply_env_override look_up_env parsers upper split trim

  abbrev override_fields : Fields → String → Fields
  override_fields = process_struct look_up_env parsers upper split trim

  abbrev override_field : String → Value → String → Value
  override_field = process_field look_up_env parsers upper split trim

  set_typed :
      (x : Value) (v : String)
      → (kind_of (set_to x v) ≡ kind_of x) × (in_range x ≡ true → in_range (set_to x v) ≡ true)
  unfolding set kind_of in_range
  set_typed (text s) v = ground arith
  set_typed (number w n) v = ground (arith, wrap_fits w)
  set_typed (natural w n) v = ground (arith, mod_fits w)
  set_typed (float_32 x) v = ground arith
  set_typed (float_64 x) v = ground arith
  set_typed (boolean b) v = ground arith
  set_typed (texts ss) v = ground arith
  set_typed (group fs) v = ground arith
  set_typed nil_pointer v = ground arith
  set_typed untouched v = ground arith

  override_typed :
      (x : Value) (name : String)
      → (kind_of (override_value x name) ≡ kind_of x)
        × (in_range x ≡ true → in_range (override_value x name) ≡ true)
  unfolding apply_env_override
  override_typed x name = elim (Option-cases (look_up_env name)) [
    | inl unset ↦ ground arith
    | inr (v, is_set) ↦ ground (arith, set_typed x v)
  ]

  mutual
    unfolding process_struct process_field kind_of kinds_of in_range all_in_range

    fields_typed :
        (fs : Fields) (prefix : String)
        → (kinds_of (override_fields fs prefix) ≡ kinds_of fs)
          × (all_in_range fs ≡ true → all_in_range (override_fields fs prefix) ≡ true)
    fields_typed no_more prefix = ground arith
    fields_typed (field name x fs) prefix =
        let (kind, fits) = field_typed name x prefix in
        let (kinds, all_fit) = fields_typed fs prefix in
        (rw (kind, kinds) refl, and_kept (in_range x) (all_in_range fs) _ _ fits all_fit)

    field_typed :
        (name : String) (x : Value) (prefix : String)
        → (kind_of (override_field name x prefix) ≡ kind_of x)
          × (in_range x ≡ true → in_range (override_field name x prefix) ≡ true)
    field_typed name (group fs) prefix =
        ground (arith, fields_typed fs (prefix <> "_" <> upper name))
    field_typed name (text s) prefix =
        ground (arith, override_typed (text s) (prefix <> "_" <> upper name))
    field_typed name (number w n) prefix =
        ground (arith, override_typed (number w n) (prefix <> "_" <> upper name))
    field_typed name (natural w n) prefix =
        ground (arith, override_typed (natural w n) (prefix <> "_" <> upper name))
    field_typed name (float_32 y) prefix =
        ground (arith, override_typed (float_32 y) (prefix <> "_" <> upper name))
    field_typed name (float_64 y) prefix =
        ground (arith, override_typed (float_64 y) (prefix <> "_" <> upper name))
    field_typed name (boolean b) prefix =
        ground (arith, override_typed (boolean b) (prefix <> "_" <> upper name))
    field_typed name (texts ss) prefix =
        ground (arith, override_typed (texts ss) (prefix <> "_" <> upper name))
    field_typed name nil_pointer prefix =
        ground (arith, override_typed nil_pointer (prefix <> "_" <> upper name))
    field_typed name untouched prefix =
        ground (arith, override_typed untouched (prefix <> "_" <> upper name))

  -- Whatever the environment holds, the overrides keep the kind of every field, in whatever structs of
  -- structs, and where every integer fits the width of its kind, so does every one past them, also
  -- where a variable gives a number out of range.
  pub apply_environment_overrides_typed :
      (fs : Fields)
      → all_in_range fs ≡ true
      → let fs' = process_struct look_up_env parsers upper split trim fs "QUORUMQUEST" in
        (apply_environment_overrides look_up_env parsers upper split trim (points_to (group fs))
          ≡ points_to (group fs'))
        × (kinds_of fs' ≡ kinds_of fs)
        × (all_in_range fs' ≡ true)
  unfolding apply_environment_overrides
  apply_environment_overrides_typed fs fits =
      let (same, kept) = fields_typed fs "QUORUMQUEST" in (refl, same, kept fits)
