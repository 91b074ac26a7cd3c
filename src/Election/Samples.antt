-- ===== src/Election/Samples.antt =====
-- Clients and configurations for the runs and witnesses on elections.
use text.Mathlib.TextLemmas.{append_cancel_left}
use quorum_quest.Prelude.{ℕ, zero, suc, pos, false, String, ◌<>◌, [], ◌≡◌, refl, ap, sym}
use quorum_quest.Prelude.Colon.{extended_ne}
use quorum_quest.Redis
use quorum_quest.Client.{Client, dialled, no_op}
use quorum_quest.Client

abbrev pub store : Redis.Store
store = record {
  ttl = pos 15;
  key_prefix = "lock";
  config = record {
    host = "localhost";
    port = pos 6379;
    password = "";
    db = pos 0;
    ttl = pos 15;
    key_prefix = "lock";
    endpoints = [];
    table_name = "locks";
  };
}

-- A name for each number.
unfoldable pub name : ℕ → String
name zero = "a"
name (suc n) = "a" <> ":" <> name n

pub name_injective : (i j : ℕ) → name i ≡ name j → i ≡ j
unfolding name
name_injective zero zero e = refl
name_injective (suc i) (suc j) e =
    ap suc (name_injective i j (append_cancel_left ":" _ _ (append_cancel_left "a" _ _ e)))
name_injective zero (suc j) e = absurd (extended_ne "a" (name j) (sym e))
name_injective (suc i) zero e = absurd (extended_ne "a" (name i) e)

abbrev pub candidate : ℕ → Client
candidate i = record {
  running = false;
  ttl = pos 15000000000;
  remaining_lease = Client.no_remaining;
  service = "svc";
  domain = "d";
  id = name i;
  stub = dialled "localhost:5050";
  callbacks = no_op;
  is_leader = false;
}
