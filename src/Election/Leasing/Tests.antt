-- ===== src/Election/Leasing/Tests.antt =====
-- Elections on databases in memory while the clock runs, and the witnesses.
use quorum_quest.Prelude.{
  ℕ, ℤ, pos, IsInt32, times64, true, String, str_dec, none, List, [], ◌∷◌, ◌≡◌, refl, arith,
}
use quorum_quest.Redis
use quorum_quest.Redis.Clocked
use quorum_quest.Redis.Clocked.{
  clocked, clocked-IsRedis, clocked-IsExpiring, deadline, moment, pass,
}
use quorum_quest.Dynamo
use quorum_quest.Dynamo.Memory as Tables
use quorum_quest.Election.Leasing.{IsLeasing, TimedSystem, timed_step, timed_run}
use quorum_quest.Election.Leasing.OnDynamo.{same_database, Leased, Sound, dynamo_store-IsLeasing}
use quorum_quest.Election.Leasing.OnRedis
use quorum_quest.Election.Leasing.OnRedis.{redis_store-IsLeasing}
use quorum_quest.Election.Leasing.Safety.{one_leased_leader}
use quorum_quest.Example.{deliver, no_tasks}
use quorum_quest.Example.Tasks.{has_tasks}
use quorum_quest.Client.{Client, dialled, no_op}
use quorum_quest.Client
use quorum_quest.Service
use quorum_quest.Lease.{seconds}
use quorum_quest.Service.Stores.{redis_store, dynamo_store}
use quorum_quest.Election.{arrives, Action, acquires, ticks, step, try_acquire, tick, act}
use quorum_quest.Election.Samples.{store, name, name_injective, candidate}
use quorum_quest.Example.Leases as Processes
use quorum_quest.Example.Leases.{one_leased_process}

abbrev dynamo : Dynamo.Store
dynamo = record {
  table_name = "locks";
  ttl = pos 15;
  config = record {
    region = "eu";
    table = "locks";
    ttl = pos 15;
    endpoints = [];
    profile = "";
    access_key_id = "";
    secret_access_key = "";
  };
}

abbrev no_items : Tables.Tables
no_items u j = none

abbrev on_time : TimedSystem Tables.Tables
on_time = record {
  system = record { clients = candidate; database = no_items };
  leased_until = λ i. pos 0;
}

-- The first client is elected and falls silent; the second one takes over when the lease is over.
abbrev takeover : List (ℕ × Action)
takeover =
    (50, acquires 0 arrives)
    ∷ (55, acquires 1 arrives)
    ∷ (66, acquires 1 arrives)
    ∷ (67, ticks 1 arrives)
    ∷ []

program : Unit {0}
unfolding timed_run timed_step step try_acquire tick act Client.tick Service.keep_alive
    Dynamo.keep_alive Service.try_acquire_lock Dynamo.try_acquire_lock str_dec name
    Client.try_acquire_lock times64 Dynamo.resolve_ttl
program = tt

abbrev end : TimedSystem Tables.Tables
end =
    timed_run Tables.memory (dynamo_store dynamo) same_database (Dynamo.resolve_ttl dynamo) none
      takeover on_time

-- By then both count themselves leader; the lease of the first is over, that of the second is not.
both_lead :
    ((end.system.clients 0).is_leader ≡ true)
    × ((end.system.clients 1).is_leader ≡ true)
    × (end.leased_until 0 ≡ pos 65)
    × (end.leased_until 1 ≡ pos 82)
unfolding program
both_lead = (refl, refl, refl, refl)

abbrev DynamoLeased : ℕ → Tables.Tables → String → String → String → ℤ → Type 0
DynamoLeased =
    Leased Tables.memory Tables.kept Tables.meets Tables.memory-IsDynamo Tables.memory-IsFresh
      dynamo

abbrev DynamoSound : Tables.Tables → Type 0
DynamoSound =
    Sound Tables.memory Tables.kept Tables.meets Tables.memory-IsDynamo Tables.memory-IsFresh dynamo

dynamo_store-IsLeasing_example :
    IsLeasing Tables.memory
      (dynamo_store dynamo)
      same_database
      (Dynamo.resolve_ttl dynamo)
      DynamoLeased
      DynamoSound
dynamo_store-IsLeasing_example =
    dynamo_store-IsLeasing Tables.memory Tables.kept Tables.meets Tables.memory-IsDynamo
      Tables.memory-IsFresh dynamo

one_leased_leader_example : ◌≡◌ {A = ℕ} 1 1
unfolding program
one_leased_leader_example =
    one_leased_leader Tables.memory (dynamo_store dynamo) same_database (Dynamo.resolve_ttl dynamo)
      DynamoLeased DynamoSound
      (dynamo_store-IsLeasing Tables.memory Tables.kept Tables.meets Tables.memory-IsDynamo
        Tables.memory-IsFresh dynamo)
      none takeover 50 70 on_time
      (omega arith, (omega arith, (omega arith, (omega arith, omega arith))))
      (λ i j. name_injective i j) (λ i. omega arith) (λ i. refl) (λ key. refl) 1 1 refl refl refl
      refl refl refl

store_fits : IsInt32 store.ttl
store_fits = omega arith

abbrev RedisLeased : ℕ → Clocked.Clocked → String → String → String → ℤ → Type 0
RedisLeased =
    OnRedis.Leased clocked Clocked.held clocked-IsRedis deadline moment pass clocked-IsExpiring
      store store_fits refl

abbrev RedisSound : Clocked.Clocked → Type 0
RedisSound =
    OnRedis.Sound clocked Clocked.held clocked-IsRedis deadline moment pass clocked-IsExpiring store
      store_fits refl

redis_store-IsLeasing_example :
    IsLeasing clocked
      (λ n. redis_store store)
      pass
      (λ ttl. seconds (Redis.resolve_ttl store ttl))
      RedisLeased
      RedisSound
redis_store-IsLeasing_example =
    redis_store-IsLeasing clocked Clocked.held clocked-IsRedis deadline moment pass
      clocked-IsExpiring store store_fits refl

abbrev no_keys : TimedSystem Clocked.Clocked
no_keys = record {
  system = record { clients = candidate; database = record { clock = 0; entries = λ k. none } };
  leased_until = λ i. pos 0;
}

-- The same takeover by the clock of Redis, and by processes that run tasks.
abbrev redis_takeover : List (ℕ × Action)
redis_takeover =
    (50000000000, acquires 0 arrives)
    ∷ (55000000000, acquires 1 arrives)
    ∷ (66000000000, acquires 1 arrives)
    ∷ (67000000000, ticks 1 arrives)
    ∷ []

redis_program : Unit {0}
unfolding Processes.run timed_step step try_acquire tick act Client.tick Service.keep_alive
    Redis.keep_alive Service.try_acquire_lock Redis.try_acquire_lock str_dec name
    Client.try_acquire_lock times64 deliver
redis_program = tt

-- Both run their tasks by then, the first one after the end of its lease.
both_run :
    let final =
      Processes.run clocked
        (λ n. redis_store store)
        pass
        (λ ttl. seconds (Redis.resolve_ttl store ttl))
        none
        redis_takeover
        (record { timed = no_keys; tasks = λ k. no_tasks }) in
    (has_tasks (final.tasks 0) ≡ true)
    × (has_tasks (final.tasks 1) ≡ true)
    × (final.timed.leased_until 0 ≡ pos 65000000000)
    × (final.timed.leased_until 1 ≡ pos 82000000000)
unfolding redis_program
both_run = (refl, refl, refl, refl)

one_leased_process_example : ◌≡◌ {A = ℕ} 1 1
unfolding redis_program
one_leased_process_example =
    one_leased_process clocked (λ n. redis_store store) pass
      (λ ttl. seconds (Redis.resolve_ttl store ttl)) none RedisLeased RedisSound
      (redis_store-IsLeasing clocked Clocked.held clocked-IsRedis deadline moment pass
        clocked-IsExpiring store store_fits refl)
      redis_takeover 50000000000 70000000000 no_keys
      (omega arith, (omega arith, (omega arith, (omega arith, omega arith)))) refl
      (λ i j. name_injective i j) (λ i. omega arith) (λ i. refl) tt 1 1 refl refl refl refl refl
      refl
