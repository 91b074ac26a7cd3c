-- ===== src/Calls.antt =====
-- The lock calls of internal/store/lock_store.go as data, for histories of calls.
use quorum_quest.Prelude.{ℤ, is_negative, Bool, true, not, String, List, [], ◌∷◌, ◌≢◌}

pub data Method : Type 0 where
  acquires : ℤ → Method
  releases : Method
  renews : ℤ → Method

pub record Call : Type 0 where
  pub service : String
  pub domain : String
  pub client : String
  pub method : Method

pub data Answer : Type 0 where
  granted : Bool → Answer
  released : Answer
  leased : ℤ → Answer

-- The answer to a client that does not get the lock.
abbrev pub refused : Answer → Bool
refused (granted b) = not b
refused released = true
refused (leased l) = is_negative l

-- No call is of client `b`.
abbrev pub FromOthers : String → List Call → Type 0
FromOthers b [] = Unit {0}
FromOthers b (c ∷ cs) = (b ≢ c.client) × FromOthers b cs
