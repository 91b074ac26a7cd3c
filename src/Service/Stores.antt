-- ===== src/Service/Stores.antt =====
-- The three stores of internal/store behind the interface of internal/store/lock_store.go.
use quorum_quest.Prelude.{ℕ, ℤ, String}
use quorum_quest.Redis
use quorum_quest.Dynamo
use quorum_quest.Scylla
use quorum_quest.Service.{LockStore}

abbrev pub redis_store : Redis.Store → LockStore Redis.Request Redis.Reply
redis_store s = record {
  try_acquire = Redis.try_acquire_lock s;
  release = Redis.release_lock s;
  renew = Redis.keep_alive s;
  close = Redis.close_store;
}

-- At one reading of the clock.
abbrev pub dynamo_store : Dynamo.Store → ℕ → LockStore Dynamo.Request Dynamo.Reply
dynamo_store s now = record {
  try_acquire = Dynamo.try_acquire_lock s now;
  release = Dynamo.release_lock s;
  renew = Dynamo.keep_alive s now;
  close = Dynamo.close_store;
}

abbrev pub scylla_store : (ℤ → String) → Scylla.Store → LockStore Scylla.Request Scylla.Reply
scylla_store format_int s = record {
  try_acquire = Scylla.try_acquire_lock s;
  release = Scylla.release_lock s;
  renew = Scylla.keep_alive format_int s;
  close = Scylla.close_store s;
}
