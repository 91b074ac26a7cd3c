-- ===== src/Config/Overrides/Reads.antt =====
-- internal/config/config.go, applyEnvOverride: what a field of some kind becomes by the text of its variable.
use quorum_quest.Prelude.{
  ℕ, ltb, ℤ, pos, negsuc, String, Bool, true, false, Bool-cases, Option, some, none, List, map, inl,
  inr, Option-cases, ◌≡◌, refl, false≢true, arith, ◌%◌,
}
use quorum_quest.Config.Overrides.{
  Width, bits_8, bits_16, bits_32, bits_64, Value, text, number, natural, float_32, float_64,
  boolean, texts, group, nil_pointer, untouched, Fields, size, wrap, Parsers, apply_env_override,
  process_struct, process_field, set,
}
use quorum_quest.Config.Overrides.Typing.{fits_signed}

abbrev pub is_leaf : Value → Bool
is_leaf (group fs) = false
is_leaf _ = true

wrap_small : (w : Width) (z : ℤ) → fits_signed (size w) z ≡ true → wrap (size w) z ≡ z
wrap_small bits_8 (pos m) h = ground arith
wrap_small bits_16 (pos m) h = ground arith
wrap_small bits_32 (pos m) h = ground arith
wrap_small bits_64 (pos m) h = ground arith
wrap_small bits_8 (negsuc m) h = ground arith
wrap_small bits_16 (negsuc m) h = ground arith
wrap_small bits_32 (negsuc m) h = ground arith
wrap_small bits_64 (negsuc m) h = ground arith

mod_small : (w : Width) (n : ℕ) → ltb n (size w) ≡ true → n % size w ≡ n
mod_small bits_8 n h = ground arith
mod_small bits_16 n h = ground arith
mod_small bits_32 n h = ground arith
mod_small bits_64 n h = ground arith

module _ (look_up_env : String → Option String) (parsers : Parsers) (upper : String → String)
    (split : String → List String) (trim : String → String) where
  open parsers use {parse_int, parse_uint, parse_float, parse_bool, to_float_32}

  abbrev override_value : Value → String → Value
  override_value = apply_env_override look_up_env parsers upper split trim

  abbrev override_fields : Fields → String → Fields
  override_fields = process_struct look_up_env parsers upper split trim

  abbrev override_field : String → Value → String → Value
  override_field = process_field look_up_env parsers upper split trim

  -- How a value of some kind is replaced by the text of a variable.
  pub data Reads : Value → String → Value → Type 0 where
    text_read : (s v : String) → Reads (text s) v (text v)
    number_read :
        (w : Width) (n m : ℤ) (v : String)
        → parse_int v ≡ some m
        → fits_signed (size w) m ≡ true
        → Reads (number w n) v (number w m)
    number_cut :
        (w : Width) (n m : ℤ) (v : String)
        → parse_int v ≡ some m
        → fits_signed (size w) m ≡ false
        → Reads (number w n) v (number w (wrap (size w) m))
    number_kept :
        (w : Width) (n : ℤ) (v : String) → parse_int v ≡ none → Reads (number w n) v (number w n)
    natural_read :
        (w : Width) (n m : ℕ) (v : String)
        → parse_uint v ≡ some m
        → ltb m (size w) ≡ true
        → Reads (natural w n) v (natural w m)
    natural_cut :
        (w : Width) (n m : ℕ) (v : String)
        → parse_uint v ≡ some m
        → ltb m (size w) ≡ false
        → Reads (natural w n) v (natural w (m % size w))
    natural_kept :
        (w : Width) (n : ℕ) (v : String) → parse_uint v ≡ none → Reads (natural w n) v (natural w n)
    float_32_read :
        (x y : ℕ) (v : String)
        → parse_float v ≡ some y
        → Reads (float_32 x) v (float_32 (to_float_32 y))
    float_32_kept : (x : ℕ) (v : String) → parse_float v ≡ none → Reads (float_32 x) v (float_32 x)
    float_64_read :
        (x y : ℕ) (v : String) → parse_float v ≡ some y → Reads (float_64 x) v (float_64 y)
    float_64_kept : (x : ℕ) (v : String) → parse_float v ≡ none → Reads (float_64 x) v (float_64 x)
    boolean_read :
        (b c : Bool) (v : String) → parse_bool v ≡ some c → Reads (boolean b) v (boolean c)
    boolean_kept : (b : Bool) (v : String) → parse_bool v ≡ none → Reads (boolean b) v (boolean b)
    texts_read : (ss : List String) (v : String) → Reads (texts ss) v (texts (map trim (split v)))
    nil_kept : (v : String) → Reads nil_pointer v nil_pointer
    untouched_kept : (v : String) → Reads untouched v untouched

  -- The value past the overrides, for a field that is the type of the backend or not, and the value of
  -- its variable.
  abbrev pub Overrides : Bool → Option String → Value → Value → Type 0
  Overrides true v x y = y ≡ x
  Overrides false none x y = y ≡ x
  Overrides false (some v) x y = Reads x v y

  set_number :
      (w : Width) (n : ℤ) (v : String)
      → Reads (number w n) v (set look_up_env parsers upper split trim (number w n) v)
  unfolding set
  set_number w n v = elim (Option-cases (parse_int v)) [
    | inl bad ↦ rw (bad, set) (number_kept w n v bad)
    | inr (m, good) ↦ elim (Bool-cases (fits_signed (size w) m)) [
      | inl fits ↦ rw (good, set, wrap_small w m fits) (number_read w n m v good fits)
      | inr large ↦ rw (good, set) (number_cut w n m v good large)
    ]
  ]

  set_natural :
      (w : Width) (n : ℕ) (v : String)
      → Reads (natural w n) v (set look_up_env parsers upper split trim (natural w n) v)
  unfolding set
  set_natural w n v = elim (Option-cases (parse_uint v)) [
    | inl bad ↦ rw (bad, set) (natural_kept w n v bad)
    | inr (m, good) ↦ elim (Bool-cases (ltb m (size w))) [
      | inl fits ↦ rw (good, set, mod_small w m fits) (natural_read w n m v good fits)
      | inr large ↦ rw (good, set) (natural_cut w n m v good large)
    ]
  ]

  pub set-Reads :
      (x : Value) (v : String)
      → is_leaf x ≡ true
      → Reads x v (set look_up_env parsers upper split trim x v)
  unfolding set
  set-Reads (text s) v h = text_read s v
  set-Reads (number w n) v h = set_number w n v
  set-Reads (natural w n) v h = set_natural w n v
  set-Reads (float_32 x) v h = elim (Option-cases (parse_float v)) [
    | inl bad ↦ rw (bad, set) (float_32_kept x v bad)
    | inr (y, good) ↦ rw (good, set) (float_32_read x y v good)
  ]
  set-Reads (float_64 x) v h = elim (Option-cases (parse_float v)) [
    | inl bad ↦ rw (bad, set) (float_64_kept x v bad)
    | inr (y, good) ↦ rw (good, set) (float_64_read x y v good)
  ]
  set-Reads (boolean b) v h = elim (Option-cases (parse_bool v)) [
    | inl bad ↦ rw (bad, set) (boolean_kept b v bad)
    | inr (c, good) ↦ rw (good, set) (boolean_read b c v good)
  ]
  set-Reads (texts ss) v h = texts_read ss v
  set-Reads (group fs) v h = absurd (false≢true h)
  set-Reads nil_pointer v h = nil_kept v
  set-Reads untouched v h = untouched_kept v

  pub reads_past :
      (x : Value) (name : String)
      → is_leaf x ≡ true
      → Overrides false (look_up_env name) x (override_value x name)
  unfolding apply_env_override
  reads_past x name h = elim (Option-cases (look_up_env name)) [
    | inl unset ↦ rw (unset, apply_env_override) refl
    | inr (v, is_set) ↦ rw (is_set, apply_env_override) (set-Reads x v h)
  ]
