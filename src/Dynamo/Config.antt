-- ===== src/Dynamo/Config.antt =====
-- internal/store/dynamodb/dynamodbconfig.go. `Validate` returns the error's text, if there is one.
use quorum_quest.Prelude.{
  ℤ, pos, is_positive, Bool, true, false, not, ◌&&◌, ◌||◌, List, [], ◌∷◌, String, str_eq, Option,
  none, some, if◌then◌else◌,
}

pub record Config : Type 0 where
  pub region : String
  pub table : String
  pub ttl : ℤ
  pub endpoints : List String
  pub profile : String
  pub access_key_id : String
  pub secret_access_key : String

abbrev is_empty {ℓ} : {A : Type ℓ} → List A → Bool
is_empty [] = true
is_empty (x ∷ xs) = false

unfoldable pub get_table_name : Config → String
get_table_name c = c.table

unfoldable pub get_ttl : Config → ℤ
get_ttl c = c.ttl

unfoldable pub get_endpoints : Config → List String
get_endpoints c = c.endpoints

unfoldable pub validate : Config → Option String
validate c =
    if str_eq c.region ""
    then some "region is required"
    else if str_eq c.table ""
    then some "table is required"
    else if not (is_positive c.ttl)
    then some "invalid TTL"
    else if is_empty c.endpoints
    then some "at least one endpoint is required"
    else if not (str_eq c.access_key_id "") && str_eq c.secret_access_key ""
        || str_eq c.access_key_id "" && not (str_eq c.secret_access_key "")
    then some "both access key and secret key must be provided together"
    else none

-- `NewDynamoDBConfig`
unfoldable pub new_config : Config
new_config = record {
  region = "us-west-2";
  table = "quorum-quest";
  ttl = pos 15;
  endpoints = "dynamodb.us-west-2.amazonaws.com" ∷ [];
  profile = "";
  access_key_id = "";
  secret_access_key = "";
}
