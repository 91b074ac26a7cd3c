-- ===== src/Dynamo/Memory.antt =====
-- A table service that keeps the laws of Dynamo/Server.antt, answers every request, and reads what was
-- written. It shows that the laws can be met.
use quorum_quest.Prelude.{
  Bool, true, false, ◌&&◌, ◌||◌, String, str_eq, Option, none, some, if◌then◌else◌, refl, arith,
}
use quorum_quest.Program.{Result, ok, err, Server}
use quorum_quest.Dynamo.{
  Attribute, text, Item, Condition, attribute_not_exists, less, equal, at_least, either, both,
  Request, Reply, put_item, get_item, delete_item, update_item, describe_table, create_table,
  wait_for_table, load_config, Error, condition_failed,
}
use quorum_quest.Dynamo.Server.{
  is_less, is_at_least, is_equal, is_none, attribute, updated, IsDynamo, IsFresh, IsHealthy,
}

abbrev pub Tables : Type 0
Tables = String → String → Option Item

abbrev pub store_item : String → String → Option Item → Tables → Tables
store_item t k i m u j = if str_eq u t && str_eq j k then i else m u j

abbrev pub meets : Condition → Option Item → Bool
meets (attribute_not_exists n) i = is_none (attribute i n)
meets (less n v) i = is_less (attribute i n) v
meets (equal n v) i = is_equal (attribute i n) v
meets (at_least n v) i = is_at_least (attribute i n) v
meets (either c d) i = meets c i || meets d i
meets (both c d) i = meets c i && meets d i

-- The key of an item that is put.
abbrev key_of : Option Attribute → String
key_of (some (text k)) = k
key_of _ = ""

abbrev write_if : Bool → String → String → Option Item → Tables → Result Error (Unit {0}) × Tables
write_if true t k i m = (ok tt, store_item t k i m)
write_if false t k i m = (err condition_failed, m)

abbrev answer : (r : Request) → Tables → Reply r × Tables
answer (put_item t i c) m =
    write_if (meets c (m t (key_of (i "PK")))) t (key_of (i "PK")) (some i) m
answer (get_item t k) m = (ok (m t k), m)
answer (delete_item t k) m = (ok tt, store_item t k none m)
answer (update_item t k n v c) m = write_if (meets c (m t k)) t k (updated n v (m t k)) m
answer (describe_table t) m = (ok tt, m)
answer (create_table t) m = (ok tt, m)
answer (wait_for_table t d) m = (ok tt, m)
answer (load_config os) m = (ok tt, m)

abbrev pub memory : Server Request Reply
memory = record { State = Tables; handle = answer }

abbrev pub kept : memory.State → String → String → Option Item
kept m = m

pub memory-IsDynamo : IsDynamo memory kept meets
memory-IsDynamo = record {
  meaning = record {
    on_not_exists = λ n i. refl;
    on_less = λ n v i. refl;
    on_equal = λ n c i. refl;
    on_at_least = λ n v i. refl;
    on_either = λ c d i. refl;
    on_both = λ c d i. refl;
  };
  on_put = λ s t k i c e. rw e (ground arith);
  on_update = λ s t k n v c e. ground arith;
  on_delete = λ s t k. ground arith;
  get_frame = λ s t k u j. refl;
  put_frame = λ s t k i c j e n. rw e (ground arith);
  update_frame = λ s t k n v c j d. ground arith;
  delete_frame = λ s t k j n. ground arith;
}

pub memory-IsFresh : IsFresh memory kept
memory-IsFresh = record { on_get = λ s t k. refl }

pub memory-IsHealthy : IsHealthy memory
memory-IsHealthy = record {
  put_answers = λ s t i c. ground arith;
  update_answers = λ s t k n v c. ground arith;
  get_answers = λ s t k. tt;
  delete_answers = λ s t k. tt;
}
