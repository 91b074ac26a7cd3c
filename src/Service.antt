-- ===== src/Service.antt =====
-- internal/server/server.go: the gRPC server's life and its handlers, over a store of
-- internal/store/lock_store.go.
pub mod Lifecycle
pub mod Handlers
pub mod Stores
pub mod Leadership
pub mod Interceptor
mod Tests
use quorum_quest.Prelude.{
  ℤ, Bool, true, false, String, str_eq, Option, none, some, ◌<>◌, if◌then◌else◌,
}
use quorum_quest.Program.{
  Level, info, error, Result, ok, err, Program, done, log, ◌>>=◌, ◌>>◌, logs,
}
use quorum_quest.Client.{LockRequest, ReleaseRequest}

-- The interface `LockStore`: service, domain, client and TTL, in this order.
pub record LockStore (Req : Type 0) (Rep : Req → Type 0) : Type 0 where
  pub try_acquire : String → String → String → ℤ → Program Req Rep Bool
  pub release : String → String → String → Program Req Rep (Unit {0})
  pub renew : String → String → String → ℤ → Program Req Rep ℤ
  pub close : Program Req Rep (Unit {0})

-- `serving` says that `server` is not nil.
pub record Service (Req : Type 0) (Rep : Req → Type 0) : Type 0 where
  pub listening : Bool
  pub serving : Bool
  pub store : Option (LockStore Req Rep)

-- What `NewServer` tests for nil.
pub record Given : Type 0 where
  pub config : Bool
  pub logger : Bool
  pub metrics : Bool
  pub initializer : Bool

pub data Error : Type 0 where
  nil_config nil_logger nil_metrics nil_initializer no_listener : Error
  listen_failed init_failed serve_failed : String → Error
  -- A call of a method of the nil store.
  panic : Error

module _ {Req : Type 0} {Rep : Req → Type 0} where
  unfoldable pub new_server : Given → Result Error (Service Req Rep)
  new_server g =
      if g.config
      then if g.logger
        then if g.metrics
          then if g.initializer
            then ok (record { listening = false; serving = false; store = none })
            else err nil_initializer
          else err nil_metrics
        else err nil_logger
      else err nil_config

  -- An initializer that fails returns no store, as those of cmd/quorum-quest-service/main.go.
  unfoldable pub init_store :
      Program Req Rep (Result String (LockStore Req Rep))
      → Service Req Rep
      → Program Req Rep (Option String × Service Req Rep)
  init_store initializer q = do
    made ← initializer
    elim made [
      | err m ↦ logs error m >> done (some m, record q { store = none })
      | ok st ↦ done (none, record q { store = some st })
    ]

  -- `serve`. `served` is what `grpc.Server.Serve` returns in the end; until then the handlers run.
  unfoldable pub serve : Option String → Service Req Rep → Result Error (Unit {0}) × Service Req Rep
  serve served q =
      if q.listening then (outcome served, record q { serving = true }) else (err no_listener, q)
    where
      outcome : Option String → Result Error (Unit {0})
      outcome none = ok tt
      outcome (some m) = if str_eq m "closed" then ok tt else err (serve_failed m)

  -- `Start`, from the error of `net.Listen`, if it gives one. The line on the address is cut short.
  unfoldable pub start :
      Option String
      → Program Req Rep (Result String (LockStore Req Rep))
      → Option String
      → Service Req Rep
      → Program Req Rep (Result Error (Unit {0}) × Service Req Rep)
  unfolding init_store serve
  start (some m) initializer served q =
      logs error m >> done (err (listen_failed m), record q { listening = false })
  start none initializer served q = do
    made ← init_store initializer (record q { listening = true })
    elim made.0 [
      | some m ↦ logs error m >> done (err (init_failed m), made.1)
      | none ↦ logs info "server listening" >> done (serve served made.1)
    ]

  unfoldable pub close_store : Option (LockStore Req Rep) → Program Req Rep (Unit {0})
  close_store none = done tt
  close_store (some st) = st.close

  -- `Stop`
  unfoldable pub stop : Service Req Rep → Program Req Rep (Service Req Rep)
  unfolding close_store
  stop q =
      logs info "stopping server"
      >> (if q.serving
          then close_store q.store >> done (record q { serving = false; store = none })
          else done q)

  -- `RecordLatency` gives an error, or none.
  abbrev record_latency : Option String → Program Req Rep (Unit {0})
  record_latency none = done tt
  record_latency (some m) = logs error m

  unfoldable pub try_acquire_lock :
      Option String → Service Req Rep → LockRequest → Program Req Rep (Result Error Bool)
  try_acquire_lock metric q r = elim q.store [
    | none ↦ done (err panic)
    | some st ↦ do
      is_leader ← st.try_acquire r.service r.domain r.client_id r.ttl
      _ ← record_latency metric
      done (ok is_leader)
  ]

  unfoldable pub release_lock :
      Option String → Service Req Rep → ReleaseRequest → Program Req Rep (Result Error (Unit {0}))
  release_lock metric q r = elim q.store [
    | none ↦ done (err panic)
    | some st ↦ do
      _ ← st.release r.service r.domain r.client_id
      _ ← record_latency metric
      done (ok tt)
  ]

  unfoldable pub keep_alive :
      Option String → Service Req Rep → LockRequest → Program Req Rep (Result Error ℤ)
  keep_alive metric q r = elim q.store [
    | none ↦ done (err panic)
    | some st ↦ do
      duration ← st.renew r.service r.domain r.client_id r.ttl
      _ ← record_latency metric
      done (ok duration)
  ]
