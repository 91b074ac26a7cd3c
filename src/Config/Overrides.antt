-- ===== src/Config/Overrides.antt =====
-- internal/config/config.go, applyEnvironmentOverrides: the environment's variables over the fields of a
-- configuration. A struct is the list of its settable fields, each under the name of its YAML tag.
pub mod Typing
pub mod Reads
pub mod Paths
use quorum_quest.Prelude.{
  ℕ, ℤ, pos, negsuc, ltb, ◌*◌, ◌-◌, ◌%◌, Bool, String, str_eq, ◌<>◌, ◌&&◌, Option, none, some, List,
  map, Option-cases, inl, inr, ◌≡◌, refl, arith, if◌then◌else◌,
}

-- The bits of an integer's kind; `int` and `uint` have 64.
pub data Width : Type 0 where
  bits_8 bits_16 bits_32 bits_64 : Width

-- The kinds of the fields: strings, integers, floating point numbers (by the bits of the float64), slices
-- of strings, structs and pointers to structs, and what no override touches: nil pointers, and other
-- kinds.
mutual
  pub data Value : Type 0 where
    text : String → Value
    number : Width → ℤ → Value
    natural : Width → ℕ → Value
    float_32 float_64 : ℕ → Value
    boolean : Bool → Value
    texts : List String → Value
    group : Fields → Value
    nil_pointer : Value
    untouched : Value

  pub data Fields : Type 0 where
    no_more : Fields
    field : String → Value → Fields → Fields

-- How many numbers there are of so many bits.
abbrev pub size : Width → ℕ
size bits_8 = 256
size bits_16 = 65536
size bits_32 = 4294967296
size bits_64 = 18446744073709551616

-- The low bits, as `SetInt` and `SetUint` keep them.
abbrev low_bits : ℕ → ℤ → ℕ
low_bits n (pos m) = m % n
low_bits n (negsuc m) = n - 1 - m % n

abbrev pub wrap : ℕ → ℤ → ℤ
wrap n z = if ltb (2 * low_bits n z) n then pos (low_bits n z) else negsuc (n - 1 - low_bits n z)

-- The conversion of Go to an int32.
abbrev bits32 : ℤ → ℕ
bits32 (pos n) = n % 4294967296
bits32 (negsuc n) = 4294967295 - n % 4294967296

abbrev pub wrap32 : ℤ → ℤ
wrap32 z = if ltb (bits32 z) 2147483648 then pos (bits32 z) else negsuc (4294967295 - bits32 z)

-- What `applyEnvironmentOverrides` is called of: nil, a value that is no pointer, a nil pointer, or a
-- pointer to a value.
pub data Argument : Type 0 where
  nothing no_pointer nil_to : Argument
  points_to : Value → Argument

-- The parsers of strconv, each none for an error, and the rounding of a float64 to a float32.
pub record Parsers : Type 0 where
  pub parse_int : String → Option ℤ
  pub parse_uint : String → Option ℕ
  pub parse_float : String → Option ℕ
  pub parse_bool : String → Option Bool
  pub to_float_32 : ℕ → ℕ

-- `os.LookupEnv`, the parsers, and of Go's library `strings.ToUpper`, `strings.Split` at commas and
-- `strings.TrimSpace`.
module _ (look_up_env : String → Option String) (parsers : Parsers) (upper : String → String)
    (split : String → List String) (trim : String → String) where
  open parsers use {parse_int, parse_uint, parse_float, parse_bool, to_float_32}

  -- `applyEnvOverride`, for the value of the variable.
  pub set : Value → String → Value
  set (text s) v = text v
  set (number w n) v = elim (parse_int v) [
    | some m ↦ number w (wrap (size w) m)
    | none ↦ number w n
  ]
  set (natural w n) v = elim (parse_uint v) [ some m ↦ natural w (m % size w) | none ↦ natural w n ]
  set (float_32 x) v = elim (parse_float v) [
    | some y ↦ float_32 (to_float_32 y)
    | none ↦ float_32 x
  ]
  set (float_64 x) v = elim (parse_float v) [ some y ↦ float_64 y | none ↦ float_64 x ]
  set (boolean b) v = elim (parse_bool v) [ some c ↦ boolean c | none ↦ boolean b ]
  set (texts ss) v = texts (map trim (split v))
  set (group fs) v = group fs
  set nil_pointer v = nil_pointer
  set untouched v = untouched

  unfoldable pub apply_env_override : Value → String → Value
  unfolding set
  apply_env_override x name = elim (look_up_env name) [ none ↦ x | some v ↦ set x v ]

  unfoldable mutual
    unfolding apply_env_override

    -- `processStruct`
    pub process_struct : Fields → String → Fields
    process_struct no_more prefix = no_more
    process_struct (field name x fs) prefix =
        field name (process_field name x prefix) (process_struct fs prefix)

    pub process_field : String → Value → String → Value
    process_field name (group fs) prefix =
        let inner = process_struct fs (prefix <> "_" <> upper name) in
        if str_eq name "type" && str_eq prefix "QUORUMQUEST_BACKEND" then group fs else group inner
    process_field name x prefix =
        if str_eq name "type" && str_eq prefix "QUORUMQUEST_BACKEND"
        then x
        else apply_env_override x (prefix <> "_" <> upper name)

  unfoldable pub apply_environment_overrides : Argument → Argument
  apply_environment_overrides (points_to (group fs)) =
      points_to (group (process_struct fs "QUORUMQUEST"))
  apply_environment_overrides other = other

  set_twice : (x : Value) (v : String) → set (set x v) v ≡ set x v
  unfolding set
  set_twice (text s) v = refl
  set_twice (number w n) v = ground arith
  set_twice (natural w n) v = ground arith
  set_twice (float_32 x) v = ground arith
  set_twice (float_64 x) v = ground arith
  set_twice (boolean b) v = ground arith
  set_twice (texts ss) v = refl
  set_twice (group fs) v = refl
  set_twice nil_pointer v = refl
  set_twice untouched v = refl

  apply_twice :
      (x : Value) (name : String)
      → apply_env_override (apply_env_override x name) name ≡ apply_env_override x name
  unfolding apply_env_override
  apply_twice x name = elim (Option-cases (look_up_env name)) [
    | inl unset ↦ ground arith
    | inr (v, is_set) ↦ ground (arith, set_twice x v)
  ]

  mutual
    unfolding process_struct apply_env_override set

    process_struct_twice :
        (fs : Fields) (prefix : String)
        → process_struct (process_struct fs prefix) prefix ≡ process_struct fs prefix
    process_struct_twice no_more prefix = ground arith
    process_struct_twice (field name x fs) prefix =
        ground (arith, process_field_twice name x prefix, process_struct_twice fs prefix)

    process_field_twice :
        (name : String) (x : Value) (prefix : String)
        → process_field name (process_field name x prefix) prefix ≡ process_field name x prefix
    process_field_twice name (group fs) prefix =
        ground (arith, process_struct_twice fs (prefix <> "_" <> upper name))
    process_field_twice name (text s) prefix = ground arith
    process_field_twice name (number w n) prefix = ground arith
    process_field_twice name (natural w n) prefix = ground arith
    process_field_twice name (float_32 x) prefix = ground arith
    process_field_twice name (float_64 x) prefix = ground arith
    process_field_twice name (boolean b) prefix = ground arith
    process_field_twice name (texts ss) prefix = ground arith
    process_field_twice name nil_pointer prefix = ground arith
    process_field_twice name untouched prefix = ground arith

  -- Applying the environment's overrides a second time changes nothing, in whatever structs of
  -- structs the configuration consists.
  pub process_struct_idempotent :
      (fs : Fields) (prefix : String)
      → process_struct (process_struct fs prefix) prefix ≡ process_struct fs prefix
  process_struct_idempotent fs prefix = process_struct_twice fs prefix
