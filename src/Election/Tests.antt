-- ===== src/Election/Tests.antt =====
-- Elections on databases in memory, and the witnesses.
use quorum_quest.Prelude.{
  ℕ, ℤ, pos, times64, true, false, String, str_dec, Option, none, some, List, [], ◌∷◌, ◌≡◌, ◌≢◌,
  refl, arith,
}
use quorum_quest.Redis
use quorum_quest.Redis.Memory.{memory, held, memory-IsRedis}
use quorum_quest.Scylla
use quorum_quest.Scylla.Memory
use quorum_quest.Scylla.Memory.{table}
use quorum_quest.Scylla.Server.{IsPrepared, insert_text, select_text, delete_text}
use quorum_quest.Example.{deliver}
use quorum_quest.Example.Cluster
use quorum_quest.Example.Cluster.{one_runs_tasks}
use quorum_quest.Election.OnScylla
use quorum_quest.Election.OnScylla.{scylla_store-IsSafe, keep_on, keep_on-leads}
use quorum_quest.Client.{Client, dialled, no_op}
use quorum_quest.Client
use quorum_quest.Service
use quorum_quest.Service.Stores.{redis_store, scylla_store}
use quorum_quest.Election.{
  arrives, answer_lost, Action, acquires, ticks, System, step, run, try_acquire, tick, act,
}
use quorum_quest.Election.Samples.{store, name, name_injective, candidate}
use quorum_quest.Election.Contract.{IsSafe}
use quorum_quest.Election.Safety.{one_leader}
use quorum_quest.Election.OnRedis.{holder, redis_store-IsSafe, tick_steps_down}

abbrev polling : System (String → Option String)
polling = record { clients = candidate; database = λ k. none }

-- The second client wins, the first loses an answer, and both go on.
abbrev calls : List Action
calls = acquires 1 arrives ∷ acquires 0 answer_lost ∷ ticks 1 arrives ∷ acquires 0 arrives ∷ []

one_leader_example : ◌≡◌ {A = ℕ} 1 1
unfolding run step try_acquire tick act Client.tick Service.keep_alive Redis.keep_alive
    Service.try_acquire_lock Redis.try_acquire_lock str_dec name Client.try_acquire_lock times64
one_leader_example =
    one_leader memory (redis_store store)
      (holder memory held memory-IsRedis store (omega arith) refl)
      (redis_store-IsSafe memory held memory-IsRedis store (omega arith) refl) none calls polling
      (λ i j. name_injective i j) (λ i. omega arith) (λ i. refl) 1 1 refl refl refl refl

one_runs_tasks_example : ◌≡◌ {A = ℕ} 1 1
unfolding Cluster.run step try_acquire tick act Client.tick Service.keep_alive Redis.keep_alive
    Service.try_acquire_lock Redis.try_acquire_lock str_dec name Client.try_acquire_lock times64
    deliver
one_runs_tasks_example =
    one_runs_tasks memory (redis_store store) none
      (holder memory held memory-IsRedis store (omega arith) refl)
      (redis_store-IsSafe memory held memory-IsRedis store (omega arith) refl) calls polling refl
      (λ i j. name_injective i j) (λ i. omega arith) (λ i. refl) 1 1 refl refl refl refl

tick_steps_down_example :
    (tick memory
      (redis_store store)
      none
      arrives
      (record (candidate 0) { is_leader = true })
      (λ k. none)).0.is_leader
    ≡ false
unfolding name
tick_steps_down_example =
    tick_steps_down memory held memory-IsRedis store (omega arith) refl none arrives
      (record (candidate 0) { is_leader = true }) (λ k. none) none_held
  where
    none_held : ◌≢◌ {A = Option String} none (some "a")
    none_held e = cc

abbrev scylla : Scylla.Store
scylla = record {
  session = true;
  table_name = "locks";
  keyspace_name = "ks";
  full_table_name = table;
  ttl = pos 15;
  config = record {
    host = "h";
    port = pos 9042;
    keyspace = "ks";
    table = "locks";
    ttl = pos 15;
    consistency = "CONSISTENCY_QUORUM";
    endpoints = [];
  };
  try_acquire_lock_query = insert_text table;
  validate_lock_query = select_text table;
  release_lock_query = delete_text table;
}

scylla-IsPrepared : IsPrepared scylla
scylla-IsPrepared = record { inserts = refl; selects = refl; deletes = refl }

abbrev digits : ℤ → String
digits n = "15"

scylla_store-IsSafe_example : IsSafe Memory.memory (scylla_store digits scylla) (
    OnScylla.holder Memory.memory Memory.kept scylla scylla-IsPrepared Memory.memory-IsScylla
      digits)
scylla_store-IsSafe_example =
    scylla_store-IsSafe Memory.memory Memory.kept scylla scylla-IsPrepared Memory.memory-IsScylla
      digits Memory.memory-IsFresh

-- The row of client "b", which took the lock over.
abbrev taken_over : Memory.Rows
taken_over = Memory.put_row "svc" "d" (some ("b", pos 100)) (λ u e. none)

taken_over_held : taken_over "svc" "d" ≡ some ("b", pos 100)
unfolding str_dec
taken_over_held = refl

keep_on-leads_example :
    let (q, st) =
      keep_on Memory.memory Memory.kept scylla scylla-IsPrepared Memory.memory-IsScylla digits none
        100
        (record (candidate 0) { is_leader = true }, taken_over) in
    (q.is_leader ≡ true) × (st "svc" "d" ≡ some ("b", pos 100))
unfolding Scylla.resolve_ttl
keep_on-leads_example =
    keep_on-leads Memory.memory Memory.kept scylla scylla-IsPrepared Memory.memory-IsScylla digits
      Memory.memory-IsHealthy none ("b", pos 100) 100 (record (candidate 0) { is_leader = true })
      taken_over (omega arith) refl taken_over_held refl
