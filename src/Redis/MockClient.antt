-- ===== src/Redis/MockClient.antt =====
-- internal/store/redis/mock_redis.go: MockRedisClient, whose methods return the command that a test gives.
use quorum_quest.Prelude.{ℕ, ℤ, String, Bool, Option, none, some}
use quorum_quest.Program.{Result}
use quorum_quest.Mocks.{Arguments, value_of}
use quorum_quest.Redis.{Request, Reply, set_nx, get, del, expire, ping, close, Error}

-- The methods but `Close` assert the type of a command, which is its result or its error; `none` where
-- that panics.
unfoldable pub command :
    {State A : Type 0}
    → (State → Option (Arguments (Result Error A) Error × State))
    → State
    → Option (Result Error A × State)
command called st = elim (called st) [
  | none ↦ none
  | some x ↦ elim (value_of x.0.first) [ none ↦ none | some c ↦ some (c, x.1) ]
]

-- SetNX, Get, Del, Expire and Ping.
module _ {State : Type 0}
    (called : (r : Request) → State → Option (Arguments (Reply r) Error × State)) where
  unfoldable pub mock_set_nx : String → String → ℤ → State → Option (Result Error Bool × State)
  unfolding command
  mock_set_nx key value expiration = command (called (set_nx key value expiration))

  unfoldable pub mock_get : String → State → Option (Result Error String × State)
  unfolding command
  mock_get key = command (called (get key))

  unfoldable pub mock_del : String → State → Option (Result Error ℕ × State)
  unfolding command
  mock_del key = command (called (del key))

  unfoldable pub mock_expire : String → ℤ → State → Option (Result Error Bool × State)
  unfolding command
  mock_expire key expiration = command (called (expire key expiration))

  unfoldable pub mock_ping : State → Option (Result Error String × State)
  unfolding command
  mock_ping = command (called ping)

  -- `Close` returns `args.Error(0)`.
  unfoldable pub mock_close : State → Option (Option Error × State)
  mock_close st = elim (called close st) [ none ↦ none | some x ↦ some (x.0.second, x.1) ]
