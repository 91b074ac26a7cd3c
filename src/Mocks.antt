-- ===== src/Mocks.antt =====
-- The clients of internal/store/*/mock_*.go, which record their calls by testify's `mock.Mock`. What `Called`
-- gives for a call is what a test has set up: it is a parameter.
use quorum_quest.Prelude.{String, Option, none, some, List, [], ◌∷◌}

-- A value of type `interface{}` where the code asserts the type `A`.
pub data Given (A : Type 0) : Type 0 where
  nothing of_other_type : Given A
  given : A → Given A

-- `mock.Arguments`, as the methods use it: `Get(0)` and `Error(1)`.
pub record Arguments (A E : Type 0) : Type 0 where
  pub first : Given A
  pub second : Option E

-- A pointer, which may be nil, and an error: `if args.Get(0) == nil { return nil, args.Error(1) }`, and else
-- the value with its type asserted. `none` where the assertion panics.
unfoldable pub pointer_and_error : {A E : Type 0} → Arguments A E → Option (Option A × Option E)
pointer_and_error args = elim args.first [
  | nothing ↦ some (none, args.second)
  | of_other_type ↦ none
  | given a ↦ some (some a, args.second)
]

-- `args.Get(0).(*T)` alone, which panics for nil too.
unfoldable pub value_of : {A : Type 0} → Given A → Option A
value_of nothing = none
value_of of_other_type = none
value_of (given a) = some a

-- `MockQuery.Scan` for pointers to texts: the texts, and the error.
unfoldable pub scan :
    {E : Type 0} → Arguments String E → List String → Option (List String × Option E)
scan args dest = elim args.first [
  | nothing ↦ some (dest, args.second)
  | of_other_type ↦ none
  | given client_id ↦ some (store client_id dest, args.second)
]
  where
    store : String → List String → List String
    store client_id [] = []
    store client_id (d ∷ ds) = client_id ∷ ds
