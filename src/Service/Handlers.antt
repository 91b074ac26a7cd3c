-- ===== src/Service/Handlers.antt =====
-- internal/server/server.go: what the handlers of a server with a store answer.
use quorum_quest.Prelude.{String, Option, none, some, true, ◌≡◌}
use quorum_quest.Program.{Server, Result, ok, err, execute}
use quorum_quest.Client.{LockRequest, ReleaseRequest}
use quorum_quest.Service.{Service, LockStore, Error, try_acquire_lock, release_lock, keep_alive}
use quorum_quest.Service.Lifecycle.{execute->>=}

-- What a client's stub returns for a handler's answer: a handler that panics ends the connection.
abbrev pub delivered : {A : Type 0} → Result Error A → Result String A
delivered (ok a) = ok a
delivered (err e) = err "unavailable"

module _ {Req : Type 0} {Rep : Req → Type 0} where
  -- A server that serves over the store.
  abbrev pub serving : LockStore Req Rep → Service Req Rep
  serving store = record { listening = true; serving = true; store = some store }

  module _ (S : Server Req Rep) (store : LockStore Req Rep) (st : S.State) where
    -- The handlers answer what the store answers to the client's service, domain, name and TTL, and do
    -- nothing else to the database, whether the metrics are recorded or not.
    pub try_acquire_lock-serving :
        (metric : Option String) (r : LockRequest)
        → let (b, st') = execute S (store.try_acquire r.service r.domain r.client_id r.ttl) st in
          execute S (try_acquire_lock metric (serving store) r) st ≡ (ok b, st')
    unfolding try_acquire_lock
    try_acquire_lock-serving none r =
        execute->>= S (store.try_acquire r.service r.domain r.client_id r.ttl) _ st
    try_acquire_lock-serving (some m) r =
        execute->>= S (store.try_acquire r.service r.domain r.client_id r.ttl) _ st

    pub release_lock-serving :
        (metric : Option String) (r : ReleaseRequest)
        → let (u, st') = execute S (store.release r.service r.domain r.client_id) st in
          execute S (release_lock metric (serving store) r) st ≡ (ok tt, st')
    unfolding release_lock
    release_lock-serving none r = execute->>= S (store.release r.service r.domain r.client_id) _ st
    release_lock-serving (some m) r =
        execute->>= S (store.release r.service r.domain r.client_id) _ st

    pub keep_alive-serving :
        (metric : Option String) (r : LockRequest)
        → let (l, st') = execute S (store.renew r.service r.domain r.client_id r.ttl) st in
          execute S (keep_alive metric (serving store) r) st ≡ (ok l, st')
    unfolding keep_alive
    keep_alive-serving none r =
        execute->>= S (store.renew r.service r.domain r.client_id r.ttl) _ st
    keep_alive-serving (some m) r =
        execute->>= S (store.renew r.service r.domain r.client_id r.ttl) _ st
