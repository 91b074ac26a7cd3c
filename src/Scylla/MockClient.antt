-- ===== src/Scylla/MockClient.antt =====
-- internal/store/scylladb/mock_scylladb.go: MockSession and MockQuery, and the steps of the MockStore that do
-- nothing.
use quorum_quest.Prelude.{String, Option, none, some, List}
use quorum_quest.Mocks.{Arguments, value_of}
use quorum_quest.Scylla.{Value, Error}
use quorum_quest.Scylla.Mock.{MockStore}

module _ {State Query : Type 0}
    (called : String → List Value → State → Option (Arguments Query Error × State)) where
  -- `MockSession.Query`: the query that a test gives for the statement and its values, or a panic.
  unfoldable pub mock_query : String → List Value → State → Option (Query × State)
  mock_query statement values st = elim (called statement values st) [
    | none ↦ none
    | some x ↦ elim (value_of x.0.first) [ none ↦ none | some q ↦ some (q, x.1) ]
  ]

-- `MockQuery.Exec` returns `args.Error(0)`, `MockQuery.WithContext` the query itself, and
-- `MockSession.Close` nothing; each panics where `Called` does.
module _ {State : Type 0} where
  unfoldable pub mock_exec :
      (State → Option (Option Error × State)) → State → Option (Option Error × State)
  mock_exec called st = called st

  unfoldable pub mock_with_context :
      {Query : Type 0} → (State → Option State) → Query → State → Option (Query × State)
  mock_with_context called q st = elim (called st) [ none ↦ none | some st' ↦ some (q, st') ]

  unfoldable pub mock_close : (State → Option State) → State → Option State
  mock_close called st = called st

-- `validateKeyspace` and `validateTable` of the MockStore, with the error.
abbrev validate_keyspace : MockStore → Unit {0}
validate_keyspace s = tt

abbrev validate_table : MockStore → Option Error
validate_table s = none
