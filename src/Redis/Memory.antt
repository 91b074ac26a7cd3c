-- ===== src/Redis/Memory.antt =====
-- A server that keeps the laws of Redis/Server.antt: a list of keys with their values, which answers
-- every request. It shows that the laws can be met.
use quorum_quest.Prelude.{
  ℤ, is_positive, Bool, true, false, String, str_eq, Option, none, some, if◌then◌else◌, arith,
}
use quorum_quest.Program.{Result, ok, err, Server}
use quorum_quest.Redis.{
  Request, Reply, set_nx, get, del, expire, ping, close, new_client, Error, nil,
}
use quorum_quest.Redis.Server.{IsRedis, IsHealthy}

abbrev pub Keyspace : Type 0
Keyspace = String → Option String

abbrev pub put : String → Option String → Keyspace → Keyspace
put k v m j = if str_eq j k then v else m j

abbrev answer_set_nx : String → String → Keyspace → Option String → Result Error Bool × Keyspace
answer_set_nx k v m none = (ok true, put k (some v) m)
answer_set_nx k v m (some w) = (ok false, m)

abbrev answer_get : Keyspace → Option String → Result Error String × Keyspace
answer_get m none = (err nil, m)
answer_get m (some w) = (ok w, m)

abbrev answer_expire : String → ℤ → Keyspace → Option String → Result Error Bool × Keyspace
answer_expire k d m none = (ok false, m)
answer_expire k d m (some w) = (ok true, if is_positive d then m else put k none m)

abbrev answer : (r : Request) → Keyspace → Reply r × Keyspace
answer (set_nx k v d) m = answer_set_nx k v m (m k)
answer (get k) m = answer_get m (m k)
answer (del k) m = (ok 1, put k none m)
answer (expire k d) m = answer_expire k d m (m k)
answer ping m = (ok "PONG", m)
answer close m = (ok tt, m)
answer (new_client a p n) m = (tt, m)

abbrev pub memory : Server Request Reply
memory = record { State = Keyspace; handle = answer }

abbrev pub held : memory.State → String → Option String
held m = m

pub memory-IsRedis : IsRedis memory held
memory-IsRedis = record {
  on_set_nx = λ s k v d. ground arith;
  on_get = λ s k. ground arith;
  on_del = λ s k. ground arith;
  on_expire = λ s k d p. ground arith;
  set_nx_frame = λ s k v d j n. ground arith;
  get_frame = λ s k j. ground arith;
  del_frame = λ s k j n. ground arith;
  expire_frame = λ s k d j n. ground arith;
}

pub memory-IsHealthy : IsHealthy memory
memory-IsHealthy = record {
  set_nx_answers = λ s k v d. ground arith;
  get_answers = λ s k. ground arith;
  del_answers = λ s k. ground arith;
  expire_answers = λ s k d. ground arith;
}
