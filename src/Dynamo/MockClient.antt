-- ===== src/Dynamo/MockClient.antt =====
-- internal/store/dynamodb/mock_dynamodb.go: MockDynamoDBClient and MockTableExistsWaiter, and what the stores
-- make of what they return.
use quorum_quest.Prelude.{Option, none, some, ◌≡◌, refl}
use quorum_quest.Program.{Result, ok, err}
use quorum_quest.Mocks.{nothing, given, Arguments, pointer_and_error}
use quorum_quest.Dynamo.{
  Item, Request, Reply, put_item, get_item, delete_item, update_item, describe_table, create_table,
  wait_for_table, load_config, Error,
}

-- What the stores read of an output.
abbrev pub Output : Request → Type 0
Output (get_item t k) = Option Item
Output _ = Unit {0}

-- What the stores make of an output and an error: an error wins; of the outputs they read the one of
-- GetItem, where a nil pointer panics, which is `none`.
abbrev write_reply : {A : Type 0} → Option A × Option Error → Option (Result Error (Unit {0}))
write_reply (out, some e) = some (err e)
write_reply (out, none) = some (ok tt)

abbrev read_reply : {A : Type 0} → Option A × Option Error → Option (Result Error A)
read_reply (out, some e) = some (err e)
read_reply (some i, none) = some (ok i)
read_reply (none, none) = none

abbrev pub reply_of : (r : Request) → Option (Output r) × Option Error → Option (Reply r)
reply_of (put_item t i c) x = write_reply x
reply_of (get_item t k) x = read_reply x
reply_of (delete_item t k) x = write_reply x
reply_of (update_item t k n v c) x = write_reply x
reply_of (describe_table t) x = write_reply x
reply_of (create_table t) x = write_reply x
reply_of (wait_for_table t d) x = write_reply x
reply_of (load_config os) x = write_reply x

module _ {State : Type 0}
    (called : (r : Request) → State → Option (Arguments (Output r) Error × State)) where
  -- The six methods of MockDynamoDBClient, which are written alike, and `Wait`, of which the stores read
  -- the error: what they return, and the mock after the call.
  unfoldable pub mock_client :
      (r : Request) → State → Option ((Option (Output r) × Option Error) × State)
  mock_client r st = elim (called r st) [
    | none ↦ none
    | some x ↦ elim (pointer_and_error x.0) [ none ↦ none | some y ↦ some (y, x.1) ]
  ]

-- What a test gives for the answer of a service: its output with no error, or nil and its error.
abbrev pub answered : {A B : Type 0} → (A → B) → Result Error A → Arguments B Error
answered f (ok a) = record { first = given (f a); second = none }
answered f (err e) = record { first = nothing; second = some e }

abbrev pub arguments_of : (r : Request) → Reply r → Arguments (Output r) Error
arguments_of (put_item t i c) x = answered (λ u. tt) x
arguments_of (get_item t k) x = answered (λ i. i) x
arguments_of (delete_item t k) x = answered (λ u. tt) x
arguments_of (update_item t k n v c) x = answered (λ u. tt) x
arguments_of (describe_table t) x = answered (λ u. tt) x
arguments_of (create_table t) x = answered (λ u. tt) x
arguments_of (wait_for_table t d) x = answered (λ u. tt) x
arguments_of (load_config os) x = answered (λ u. tt) x

abbrev then_reply : {A B : Type 0} → Option A → (A → Option B) → Option B
then_reply none f = none
then_reply (some a) f = f a

write_back :
    (x : Result Error (Unit {0}))
    → then_reply (pointer_and_error (answered (λ u. tt {0}) x)) write_reply ≡ some x
unfolding pointer_and_error
write_back (ok u) = refl
write_back (err e) = refl

read_back :
    (x : Result Error (Option Item))
    → then_reply (pointer_and_error (answered (λ i. i) x)) read_reply ≡ some x
unfolding pointer_and_error
read_back (ok i) = refl
read_back (err e) = refl

-- A mocked client that is given the answers of a service answers the stores as the service does, and
-- panics in none of its methods.
pub arguments_of_lem :
    (r : Request) (x : Reply r)
    → then_reply (pointer_and_error (arguments_of r x)) (reply_of r) ≡ some x
arguments_of_lem (put_item t i c) x = write_back x
arguments_of_lem (get_item t k) x = read_back x
arguments_of_lem (delete_item t k) x = write_back x
arguments_of_lem (update_item t k n v c) x = write_back x
arguments_of_lem (describe_table t) x = write_back x
arguments_of_lem (create_table t) x = write_back x
arguments_of_lem (wait_for_table t d) x = write_back x
arguments_of_lem (load_config os) x = write_back x
