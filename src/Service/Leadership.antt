-- ===== src/Service/Leadership.antt =====
-- A client of client/go/quorum-quest-client/client.go whose requests reach internal/server/server.go
-- over a Redis store.
use quorum_quest.Prelude.{is_positive, IsInt32, Bool, true, String, Option, none, some, ◌≡◌, arith}
use quorum_quest.Program.{Server, Result, ok, execute}
use quorum_quest.Lease.{acquire, held_by}
use quorum_quest.Redis
use quorum_quest.Redis.{Request, Reply}
use quorum_quest.Redis.Server.{IsRedis, IsHealthy}
use quorum_quest.Redis.Refinement.{lock_calls_refine}
use quorum_quest.Client.{Client, LockRequest, lock_request}
use quorum_quest.Client
use quorum_quest.Service.{Service, try_acquire_lock}
use quorum_quest.Service.Stores.{redis_store}
use quorum_quest.Service.Handlers
use quorum_quest.Service.Handlers.{delivered, try_acquire_lock-serving}

abbrev pub serving : Redis.Store → Service Request Reply
serving s = Handlers.serving (redis_store s)

module _ (S : Server Request Reply) where
  -- The handler answers what the store answers to the client's service, domain, name and TTL, and does
  -- nothing else to the database.
  pub try_acquire_lock-redis_store :
      (s : Redis.Store) (metric : Option String) (r : LockRequest) (st : S.State)
      → let (b, st') =
          execute S (Redis.try_acquire_lock s r.service r.domain r.client_id r.ttl) st in
        execute S (try_acquire_lock metric (serving s) r) st ≡ (ok b, st')
  try_acquire_lock-redis_store s metric r st =
      try_acquire_lock-serving S (redis_store s) st metric r

-- The client's stub, with the database in state `st`.
abbrev pub through :
    (S : Server Request Reply)
    → Redis.Store
    → Option String
    → S.State
    → LockRequest
    → Result String Bool
through S s metric st r = delivered (execute S (try_acquire_lock metric (serving s) r) st).0

granted_holds :
    (before after : Option String) (client : String) (b : Bool)
    → (b, after) ≡ acquire before client
    → b ≡ held_by after client
granted_holds none after client b h = ground arith
granted_holds (some holder) after client b h = ground arith

-- Where Redis answers every request and the TTL that the store picks is positive, a client that has
-- asked for the lock over the service counts itself leader exactly if Redis holds the lock for it.
pub leads_iff_holds :
    (S : Server Request Reply) (value : S.State → String → Option String) (R : IsRedis S value)
    (H : IsHealthy S) (s : Redis.Store) (metric : Option String) (q : Client) (st : S.State)
    → IsInt32 (Redis.resolve_ttl s (lock_request q).ttl)
    → is_positive (Redis.resolve_ttl s (lock_request q).ttl) ≡ true
    → let (_, q', _) = Client.try_acquire_lock (through S s metric st) q in
      let (_, st') = execute S (try_acquire_lock metric (serving s) (lock_request q)) st in
      q'.is_leader ≡ held_by (value st' (Redis.lock_key s q.service q.domain)) q.id
unfolding Client.try_acquire_lock lock_request try_acquire_lock Redis.try_acquire_lock
leads_iff_holds S value R H s metric q st small positive =
    rw (try_acquire_lock-redis_store S s metric (lock_request q) st) (
      granted_holds _ _ q.id _
        (lock_calls_refine S value R H s q.service q.domain q.id (lock_request q).ttl small positive
          st).0)
