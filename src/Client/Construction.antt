-- ===== src/Client/Construction.antt =====
-- client/go/quorum-quest-client/client.go: NewQuorumQuestClient and its options.
use quorum_quest.Prelude.{
  ℤ, is_positive, Bool, true, false, not, ◌&&◌, String, str_eq, Option, none, some, List, [], ◌∷◌,
  ◌≡◌, arith,
}
use quorum_quest.Program.{Result, ok, err}
use quorum_quest.Client.{
  Client, ClientOption, with_server_stub, with_client_id, with_callbacks, apply, apply_all,
  new_client,
}
use quorum_quest.Client.Leadership.{is_sound}

abbrev pub succeeds : {E A : Type 0} → Result E A → Bool
succeeds (ok a) = true
succeeds (err e) = false

abbrev pub is_dialled : Option String → Bool
is_dialled none = true
is_dialled (some m) = false

-- A client is made exactly for names that are not empty, a positive TTL and an address that can be
-- dialled.
pub succeeds-new_client :
    (dial : String → Option String) (uuid service domain : String) (ttl : ℤ) (address : String)
    (options : List ClientOption)
    → succeeds (new_client dial uuid service domain ttl address options) ≡ (
        not (str_eq service "")
        && (not (str_eq domain "")
            && (is_positive ttl && (not (str_eq address "") && is_dialled (dial address)))))
unfolding new_client
succeeds-new_client dial uuid service domain ttl address options = ground arith

-- A client with a name that does not lead and runs no keep-alive, and is sound.
abbrev pub is_fresh : Client → Bool
is_fresh q = not (str_eq q.id "") && (not q.is_leader && (not q.running && is_sound q))

apply-is_fresh : (o : ClientOption) (q : Client) → is_fresh q ≡ true → is_fresh (apply o q) ≡ true
unfolding apply
apply-is_fresh (with_server_stub s) q h = ground arith
apply-is_fresh (with_client_id i) q h = ground arith
apply-is_fresh (with_callbacks none) q h = ground arith
apply-is_fresh (with_callbacks (some c)) q h = ground arith

apply_all-is_fresh :
    (os : List ClientOption) (q : Client) → is_fresh q ≡ true → is_fresh (apply_all os q) ≡ true
unfolding apply_all
apply_all-is_fresh [] q h = h
apply_all-is_fresh (o ∷ os) q h = apply_all-is_fresh os (apply o q) (apply-is_fresh o q h)

-- A new client, whatever its options, has a name that is not empty, does not lead, runs no keep-alive,
-- and is sound, where the generated name is not empty.
pub new_client-is_fresh :
    (dial : String → Option String) (uuid service domain : String) (ttl : ℤ) (address : String)
    (options : List ClientOption) (q : Client)
    → str_eq uuid "" ≡ false
    → new_client dial uuid service domain ttl address options ≡ ok q
    → is_fresh q ≡ true
unfolding new_client
new_client-is_fresh dial uuid service domain ttl address options q u h =
    grind (arith, apply_all-is_fresh)
