-- ===== src/Service/Interceptor.antt =====
-- internal/server/server.go, unaryServerInterceptor: the metrics around a handler's call.
use quorum_quest.Prelude.{ℤ, pos, String, List, [], ◌∷◌, Option, none, some, ◌≡◌, arith, ◌<>◌}
use quorum_quest.Program.{
  Level, error, Server, Result, ok, err, done, ◌>>=◌, ◌>>◌, logs, execute, logged,
}
use quorum_quest.Observability.{Handler, Request, Reply, new_counter, increment, record_latency}

-- `response` is what the handler gave, after `elapsed` nanoseconds; `code` is the text of the status
-- code of an error, and `method` the full method without its first slash.
unfoldable pub unary_server_interceptor :
    {A : Type 0}
    → (Option String → String)
    → String
    → ℤ
    → A × Option String
    → Handler (A × Option String)
unfolding increment record_latency
unary_server_interceptor code method elapsed response = do
  let tags : List String = "method" ∷ method ∷ "status" ∷ code response.1 ∷ []
  _ ← increment "grpc.requests.total" (pos 1) tags
  failed ← record_latency elapsed tags
  elim failed [ none ↦ done response | some m ↦ logs error m >> done response ]

abbrev pub error_lines : Result String (Unit {0}) → List (Level × String)
error_lines (ok u) = []
error_lines (err m) =
    (error, "Failed to create counter metric '" <> "grpc.requests.total" <> "': " <> m) ∷ []

-- Whatever becomes of the metrics, the caller gets the response and the error of the handler, and
-- nothing is logged but the failure to make the counter.
pub unary_server_interceptor_transparent :
    {A : Type 0} (S : Server Request Reply) (code : Option String → String) (method : String)
    (elapsed : ℤ) (response : A × Option String) (st : S.State)
    → ((execute S (unary_server_interceptor code method elapsed response) st).0 ≡ response)
      × (logged S (unary_server_interceptor code method elapsed response) st
          ≡ error_lines (S.handle (new_counter "grpc.requests.total") st).0)
unfolding unary_server_interceptor increment record_latency
unary_server_interceptor_transparent S code method elapsed response st = ground arith
