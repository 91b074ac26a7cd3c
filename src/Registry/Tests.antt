-- ===== src/Registry/Tests.antt =====
-- Runs of the registry of internal/lockservice/lockservice.go, and the witnesses.
use quorum_quest.Prelude.{ℕ, String, str_dec, ◌≡◌, refl, some, List, [], ◌∷◌}
use quorum_quest.Program.{Result, ok}
use quorum_quest.Registry.{Constructor, Registry, find, register, constructors, names}
use quorum_quest.Registry.Init.{keep, exchange, register_all, SameStores, init_order}

-- A constructor that returns its options as the store.
abbrev echo : ℕ → Result String ℕ
echo n = ok n

abbrev empty : Registry ℕ String ℕ
empty = []

abbrev one : Registry ℕ String ℕ
one = ("redis", some echo) ∷ []

sorted_names :
    constructors (("scylladb", some echo) ∷ ("dynamodb", some echo) ∷ one)
    ≡ "dynamodb" ∷ "redis" ∷ "scylladb" ∷ []
unfolding constructors names
sorted_names = refl

register-one : register "redis" (some echo) empty ≡ ok one
unfolding register find
register-one = refl

abbrev inits : List (String × Constructor ℕ String ℕ)
inits = ("dynamodb", some echo) ∷ ("redis", some echo) ∷ ("scylladb", some echo) ∷ []

abbrev other_inits : List (String × Constructor ℕ String ℕ)
other_inits = ("dynamodb", some echo) ∷ ("scylladb", some echo) ∷ ("redis", some echo) ∷ []

-- No registration panics.
three_registered :
    register_all inits empty
    ≡ ok (("scylladb", some echo) ∷ ("redis", some echo) ∷ ("dynamodb", some echo) ∷ [])
unfolding register_all register find str_dec
three_registered = refl

init_order_example : SameStores (register_all inits empty) (register_all other_inits empty)
init_order_example = init_order inits other_inits (keep ("dynamodb", some echo) (exchange _ _ []))
