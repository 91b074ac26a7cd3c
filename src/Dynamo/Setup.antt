-- ===== src/Dynamo/Setup.antt =====
-- Configuration and construction: internal/store/dynamodb/dynamodbconfig.go, and `NewStore` of
-- dynamodb_store.go.
use quorum_quest.Prelude.{
  ℤ, is_positive, Bool, true, false, text_ne, Option, none, some, [], ◌≡◌, refl, ◌≢◌, ◌↔◌, arith,
}
use quorum_quest.Program.{Server, execute, ok}
use quorum_quest.Dynamo.{Request, Reply, Store, new_store, resolve_ttl}
use quorum_quest.Dynamo.Config.{Config, validate, new_config}

-- The two credentials are given, or neither is.
pub record IsConfigured (c : Config) : Type 0 where
  pub region_given : c.region ≢ ""
  pub table_given : c.table ≢ ""
  pub ttl_positive : is_positive c.ttl ≡ true
  pub endpoint_given : c.endpoints ≢ []
  pub credentials_paired : (c.access_key_id ≡ "") ↔ (c.secret_access_key ≡ "")

-- `Validate` returns no error exactly for the configurations with a region, a table, a positive TTL, an
-- endpoint, and both credentials or neither.
pub validate_iff : (c : Config) → (validate c ≡ none) ↔ IsConfigured c
unfolding validate
validate_iff c = (λ h. ground arith, λ h. ground arith)

new_config_valid : validate new_config ≡ none
unfolding validate new_config
new_config_valid = ground (arith, text_ne "us-west-2" "" refl, text_ne "quorum-quest" "" refl)

-- Every lock call of a store that `NewStore` returns works with a positive lease, whatever TTL the
-- caller asks for, and on the configured table.
pub new_store_ready :
    (S : Server Request Reply) (given : Option Config) (logger : Bool) (st : S.State) (s : Store)
    (ttl : ℤ)
    → (execute S (new_store given logger) st).0 ≡ ok s
    → (given ≡ some s.config)
      × (logger ≡ true)
      × (s.table_name ≡ s.config.table)
      × (is_positive (resolve_ttl s ttl) ≡ true)
unfolding new_store resolve_ttl validate
new_store_ready S none logger st s ttl e = ground arith
new_store_ready S (some c) false st s ttl e = ground arith
new_store_ready S (some c) true st s ttl e = ground arith
