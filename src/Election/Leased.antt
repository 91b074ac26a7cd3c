-- ===== src/Election/Leased.antt =====
-- The leases of the table of internal/store/dynamodb/dynamodb_store.go at one reading of the clock.
use quorum_quest.Prelude.{
  ℕ, ℤ, pos, ltb_ℤ, false, String, Option, none, some, Bool-cases, false≢true, text_ne, ◌≡◌, inl,
  inr, refl, sym, arith, if◌then◌else◌,
}
use quorum_quest.Dynamo.{Attribute, text, number, binary, Item}
use quorum_quest.Dynamo.Server.{is_none, attribute, updated}
use quorum_quest.Dynamo.Leases.{Holds}

abbrev live : ℕ → Option Attribute → Option Attribute → Option String
live now (some (text c)) (some (number e)) = if ltb_ℤ e (pos now) then none else some c
live now _ _ = none

-- The client whose lease, by the clock, has not run out.
abbrev pub holder_at : ℕ → Option Item → Option String
holder_at now i =
    if is_none (attribute i "PK")
    then none
    else live now (attribute i "ClientID") (attribute i "ExpiresAt")

pub holder_at-Holds :
    (now : ℕ) (i : Option Item) (x : String) (expiry : ℤ)
    → Holds i x expiry
    → ltb_ℤ expiry (pos now) ≡ false
    → holder_at now i ≡ some x
holder_at-Holds now i x expiry h valid = rw (h.keyed, h.of_client, h.until, valid) refl

pub record IsLeased (now : ℕ) (i : Option Item) (x : String) : Type 0 where
  pub expiry : ℤ
  pub holds : Holds i x expiry
  pub valid : ltb_ℤ expiry (pos now) ≡ false

live-IsLeased :
    (now : ℕ) (i : Option Item) (x : String) (c e : Option Attribute)
    → is_none (attribute i "PK") ≡ false
    → attribute i "ClientID" ≡ c
    → attribute i "ExpiresAt" ≡ e
    → live now c e ≡ some x
    → IsLeased now i x
live-IsLeased now i x (some (text c)) (some (number e)) keyed owner until h = record {
  expiry = e;
  holds = record { keyed = keyed; of_client = ground arith; until = until };
  valid = ground arith;
}
live-IsLeased now i x (some (text c)) (some (text e)) keyed owner until h = ground arith
live-IsLeased now i x (some (text c)) (some (binary)) keyed owner until h = ground arith
live-IsLeased now i x (some (text c)) none keyed owner until h = ground arith
live-IsLeased now i x (some (number c)) e keyed owner until h = ground arith
live-IsLeased now i x (some (binary)) e keyed owner until h = ground arith
live-IsLeased now i x none e keyed owner until h = ground arith

pub holder_at-IsLeased :
    (now : ℕ) (i : Option Item) (x : String) → holder_at now i ≡ some x → IsLeased now i x
holder_at-IsLeased now i x h = elim (Bool-cases (is_none (attribute i "PK"))) [
  | inl gone ↦ ground arith
  | inr keyed ↦
      live-IsLeased now i x (attribute i "ClientID") (attribute i "ExpiresAt") keyed refl refl
        (ground arith)
]

pub updated-Holds :
    (i : Option Item) (x : String) (expiry renewed : ℤ)
    → Holds i x expiry
    → Holds (updated "ExpiresAt" (number renewed) i) x renewed
updated-Holds none x expiry renewed h = absurd (false≢true (sym h.keyed))
updated-Holds (some i) x expiry renewed h = record {
  keyed = ground (arith, h.keyed, text_ne "PK" "ExpiresAt" refl, text_ne "ExpiresAt" "PK" refl);
  of_client = ground (arith, h.of_client, text_ne "ExpiresAt" "ClientID" refl);
  until = ground (arith, h.until);
}
