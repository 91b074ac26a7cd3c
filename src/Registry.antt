-- ===== src/Registry.antt =====
-- internal/lockservice/lockservice.go: the store constructors by name. The map of the source is an
-- association list with one entry for a name; a constructor may be nil, which is `none`.
pub mod Lookup
pub mod Init
pub mod Stores
mod Tests
use quorum_quest.Prelude.{
  String, str_eq, ◌<>◌, Bool, true, false, Option, none, some, List, [], ◌∷◌, if◌then◌else◌,
}
use quorum_quest.Program.{Result, ok, err}
use Prim.Native.Nat.{Ordering}
use Prim.Native.String.{compare}

-- `sort.Strings`. The order of the code points is that of the bytes of UTF-8.
abbrev insert : String → List String → List String
insert s [] = s ∷ []
insert s (t ∷ ts) =
    let rest = insert s ts in elim (compare s t) [ Ordering.gt ↦ t ∷ rest | _ ↦ s ∷ t ∷ ts ]

abbrev sort : List String → List String
sort [] = []
sort (s ∷ ss) = insert s (sort ss)

-- `Constructor`, for options of one type; a failed construction gives an error of type `E`.
abbrev pub Constructor : Type 0 → Type 0 → Type 0 → Type 0
Constructor O E S = Option (O → Result E S)

-- What `NewStore` returns besides a store: `UnknownConstructorError`, or the constructor's own error.
pub data NewStoreError (E : Type 0) : Type 0 where
  unknown_constructor : String → NewStoreError E
  failed : E → NewStoreError E

abbrev pub Registry : Type 0 → Type 0 → Type 0 → Type 0
Registry O E S = List (String × Constructor O E S)

module _ {O E S : Type 0} where
  -- `constructors[name]`: `none` where there is no entry.
  unfoldable pub find : String → Registry O E S → Option (Constructor O E S)
  find name [] = none
  find name ((n, c) ∷ rest) = if str_eq n name then some c else find name rest

  -- The text of the panic, or the registry with the new constructor.
  unfoldable pub register :
      String → Constructor O E S → Registry O E S → Result String (Registry O E S)
  unfolding find
  register name none r = err "quorum-ques: Register constructor is nil"
  register name (some c) r = elim (find name r) [
    | some dup ↦ err ("quorum-ques: Register called twice for constructor " <> name)
    | none ↦ ok ((name, some c) ∷ r)
  ]

  -- `delete` of a map, which has one entry for a name.
  unfoldable pub unregister : String → Registry O E S → Registry O E S
  unregister name [] = []
  unregister name ((n, c) ∷ rest) =
      let others = unregister name rest in if str_eq n name then others else (n, c) ∷ others

  unfoldable pub unregister_all : Registry O E S → Registry O E S
  unregister_all r = []

  unfoldable pub construct : (O → Result E S) → O → Result (NewStoreError E) S
  construct c options = elim (c options) [ ok s ↦ ok s | err e ↦ err (failed e) ]

  unfoldable pub new_store : String → O → Registry O E S → Result (NewStoreError E) S
  unfolding find construct
  new_store name options r = elim (find name r) [
    | none ↦ err (unknown_constructor name)
    | some none ↦ err (unknown_constructor name)
    | some (some c) ↦ construct c options
  ]

  names : Registry O E S → List String
  names [] = []
  names ((n, c) ∷ rest) = n ∷ names rest

  -- `Constructors`: the names, sorted.
  unfoldable pub constructors : Registry O E S → List String
  unfolding names
  constructors r = sort (names r)
