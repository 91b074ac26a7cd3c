-- ===== src/Scylla/Memory.antt =====
-- A server that keeps the laws of Scylla/Server.antt for one table and answers every statement. It shows
-- that the laws can be met. Rows are written with the moment 60.
use quorum_quest.Prelude.{
  pos, ◌&&◌, String, str_eq, text_ne, Option, none, some, List, [], ◌∷◌, if◌then◌else◌, refl, arith,
}
use quorum_quest.Program.{Result, ok, err, Server}
use quorum_quest.Scylla.{
  Value, text, number, Request, Reply, exec, scan, create_session, close, Error, not_found,
}
use quorum_quest.Scylla.Server.{
  Row, insert_text, select_text, delete_text, IsScylla, IsFresh, IsHealthy,
}

abbrev pub table : String
table = "\"ks\".\"locks\""

abbrev pub Rows : Type 0
Rows = String → String → Option Row

abbrev pub put_row : String → String → Option Row → Rows → Rows
put_row sv d r m u e = if str_eq u sv && str_eq e d then r else m u e

abbrev kept_or : Option Row → Row → Option Row
kept_or none r = some r
kept_or (some old) r = some old

-- A statement with other values than the store's changes nothing.
abbrev run_insert : List Value → Rows → Rows
run_insert (text sv ∷ text d ∷ text c ∷ number ttl ∷ []) m =
    put_row sv d (kept_or (m sv d) (c, pos 60)) m
run_insert _ m = m

abbrev run_delete : List Value → Rows → Rows
run_delete (text sv ∷ text d ∷ []) m = put_row sv d none m
run_delete _ m = m

abbrev found : String → Option Row → Result Error String
found c none = err not_found
found c (some (b, expiry)) = if str_eq b c then ok b else err not_found

abbrev run_select : List Value → Rows → Result Error String
run_select (text sv ∷ text d ∷ text c ∷ []) m = found c (m sv d)
run_select _ m = err not_found

abbrev answer : (r : Request) → Rows → Reply r × Rows
answer (exec q vs) m = (
  ok tt,
  if str_eq q (insert_text table)
      then run_insert vs m
      else if str_eq q (delete_text table)
      then run_delete vs m
      else m,
)
answer (scan q vs) m = (if str_eq q (select_text table) then run_select vs m else err not_found, m)
answer (create_session a c) m = (ok tt, m)
answer close m = (tt, m)

abbrev pub memory : Server Request Reply
memory = record { State = Rows; handle = answer }

abbrev pub kept : memory.State → String → String → Option Row
kept m = m

pub memory-IsScylla : IsScylla memory table kept
memory-IsScylla = record {
  on_insert = λ s sv d c ttl. ground arith;
  on_select = λ s sv d c. ground arith;
  on_delete = λ s sv d. ground (arith, text_ne (delete_text table) (insert_text table) refl);
  insert_frame = λ s sv d c ttl u e n. ground arith;
  select_frame = λ s sv d c u e. refl;
  delete_frame =
      λ s sv d u e n. ground (arith, text_ne (delete_text table) (insert_text table) refl);
}

pub memory-IsFresh : IsFresh memory table kept
memory-IsFresh = record { on_select = λ s sv d c. ground arith }

pub memory-IsHealthy : IsHealthy memory table
memory-IsHealthy = record {
  insert_answers = λ s sv d c ttl. tt;
  select_answers = λ s sv d c. ground arith;
  delete_answers = λ s sv d. tt;
}
