-- ===== src/Scylla/Config.antt =====
-- internal/store/scylladb/scylladbconfig.go. `Validate` returns the error's text, if there is one.
use quorum_quest.Prelude.{
  ℤ, pos, is_positive, Bool, true, false, not, List, [], ◌∷◌, String, str_eq, Option, none, some,
  if◌then◌else◌,
}

pub record Config : Type 0 where
  pub host : String
  pub port : ℤ
  pub keyspace : String
  pub table : String
  pub ttl : ℤ
  pub consistency : String
  pub endpoints : List String

abbrev is_empty {ℓ} : {A : Type ℓ} → List A → Bool
is_empty [] = true
is_empty (x ∷ xs) = false

unfoldable pub get_table_name : Config → String
get_table_name c = c.table

unfoldable pub get_ttl : Config → ℤ
get_ttl c = c.ttl

unfoldable pub get_endpoints : Config → List String
get_endpoints c = c.endpoints

unfoldable pub validate : Config → Option String
validate c =
    if str_eq c.host ""
    then some "host is required"
    else if not (is_positive c.port)
    then some "invalid port"
    else if str_eq c.keyspace ""
    then some "keyspace is required"
    else if str_eq c.table ""
    then some "table is required"
    else if not (is_positive c.ttl)
    then some "invalid TTL"
    else if str_eq c.consistency ""
    then some "consistency level is required"
    else if is_empty c.endpoints
    then some "at least one endpoint is required"
    else none

-- `NewScyllaDBConfig`
unfoldable pub new_config : Config
new_config = record {
  host = "127.0.0.1";
  port = pos 9042;
  keyspace = "quorum-quest";
  table = "services";
  ttl = pos 15;
  consistency = "CONSISTENCY_QUORUM";
  endpoints = "localhost:9042" ∷ [];
}
