-- ===== src/Redis/Clocked.antt =====
-- A server that keeps the laws of Redis/Server.antt and Redis/Expiry.antt: keys with their values and
-- deadlines, and a clock. It refuses to set a key that has no time to live.
use quorum_quest.Prelude.{
  ℕ, ℤ, pos, negsuc, plus, ltb_ℤ, is_positive, Bool, true, false, String, str_eq, Option, none,
  some, if◌then◌else◌, arith, ◌≡◌, refl,
}
use quorum_quest.Program.{Result, ok, err, Server}
use quorum_quest.Redis.{
  Request, Reply, set_nx, get, del, expire, ping, close, new_client, Error, nil, other,
}
use quorum_quest.Redis.Server.{IsRedis}
use quorum_quest.Redis.Expiry.{IsExpiring}

pub record Clocked : Type 0 where
  pub clock : ℕ
  pub entries : String → Option (String × ℤ)

abbrev live : ℕ → Option (String × ℤ) → Option String
live now none = none
live now (some (v, d)) = if ltb_ℤ d (pos now) then none else some v

abbrev pub held : Clocked → String → Option String
held s k = live s.clock (s.entries k)

abbrev ends : Option (String × ℤ) → ℤ
ends none = pos 0
ends (some (v, d)) = d

abbrev pub deadline : Clocked → String → ℤ
deadline s k = ends (s.entries k)

abbrev pub moment : Clocked → ℕ
moment s = s.clock

abbrev pub pass : ℕ → Clocked → Clocked
pass n s = record s { clock = n }

abbrev put : String → Option (String × ℤ) → Clocked → Clocked
put k e s = record s { entries = λ j. if str_eq j k then e else s.entries j }

abbrev answer_set_nx : String → String → ℤ → Clocked → Option String → Result Error Bool × Clocked
answer_set_nx k v d s none =
    if is_positive d
    then (ok true, put k (some (v, plus s.clock d)) s)
    else (err (other "ERR invalid expire time in 'set' command"), s)
answer_set_nx k v d s (some w) = (ok false, s)

abbrev answer_get : Clocked → Option String → Result Error String × Clocked
answer_get s none = (err nil, s)
answer_get s (some w) = (ok w, s)

abbrev answer_expire : String → ℤ → Clocked → Option String → Result Error Bool × Clocked
answer_expire k d s none = (ok false, s)
answer_expire k d s (some w) =
    (ok true, if is_positive d then put k (some (w, plus s.clock d)) s else put k none s)

abbrev answer : (r : Request) → Clocked → Reply r × Clocked
answer (set_nx k v d) s = answer_set_nx k v d s (held s k)
answer (get k) s = answer_get s (held s k)
answer (del k) s = (ok 1, put k none s)
answer (expire k d) s = answer_expire k d s (held s k)
answer ping s = (ok "PONG", s)
answer close s = (ok tt, s)
answer (new_client a p n) s = (tt, s)

abbrev pub clocked : Server Request Reply
clocked = record { State = Clocked; handle = answer }

plus_later : (n : ℕ) (d : ℤ) → is_positive d ≡ true → ltb_ℤ (plus n d) (pos n) ≡ false
plus_later n (pos d) h = ground arith
plus_later n (negsuc d) h = ground arith

pub clocked-IsRedis : IsRedis clocked held
clocked-IsRedis = record {
  on_set_nx = λ s k v d. ground (arith, plus_later s.clock d);
  on_get = λ s k. ground arith;
  on_del = λ s k. ground arith;
  on_expire = λ s k d p. ground (arith, plus_later s.clock d);
  set_nx_frame = λ s k v d j n. ground arith;
  get_frame = λ s k j. ground arith;
  del_frame = λ s k j n. ground arith;
  expire_frame = λ s k d j n. ground arith;
}

clock_stands : (s : Clocked) (r : Request) → (answer r s).1.clock ≡ s.clock
clock_stands s (set_nx k v d) = ground arith
clock_stands s (get k) = ground arith
clock_stands s (del k) = refl
clock_stands s (expire k d) = ground arith
clock_stands s ping = refl
clock_stands s close = refl
clock_stands s (new_client a p n) = refl

pub clocked-IsExpiring : IsExpiring clocked held deadline moment pass
clocked-IsExpiring = record {
  on_request = clock_stands;
  on_pass = λ s n. refl;
  pass_value = λ s n k v h d. ground arith;
  pass_deadline = λ s n k. refl;
  set_nx_dates = λ s k v d. ground arith;
  get_dates = λ s k j. ground arith;
  expire_dates = λ s k d p. ground arith;
  set_nx_frame = λ s k v d j n. ground arith;
  del_frame = λ s k j n. ground arith;
  expire_frame = λ s k d j n. ground arith;
}
