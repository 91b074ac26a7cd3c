-- ===== src/Redis/Config.antt =====
-- internal/store/redis/redisconfig.go. A method with a pointer receiver returns the new record.
use quorum_quest.Prelude.{
  ℤ, pos, negsuc, Bool, true, false, not, ◌&&◌, List, [], ◌∷◌, String, str_eq, ◌==◌, if◌then◌else◌,
}

pub record Config : Type 0 where
  pub host : String
  pub port : ℤ
  pub password : String
  pub db : ℤ
  pub ttl : ℤ
  pub key_prefix : String
  pub endpoints : List String
  pub table_name : String

-- `x == 0`
abbrev is_zero : ℤ → Bool
is_zero (pos n) = n == 0
is_zero (negsuc n) = false

abbrev is_empty {ℓ} : {A : Type ℓ} → List A → Bool
is_empty [] = true
is_empty (x ∷ xs) = false

-- `Validate`: fills in the defaults, and never fails.
unfoldable pub validate : Config → Config
validate c = record c {
  host = if str_eq c.host "" then "localhost" else c.host;
  port = if is_zero c.port then pos 6379 else c.port;
  ttl = if is_zero c.ttl then pos 15 else c.ttl;
  key_prefix = if str_eq c.key_prefix "" then "lock" else c.key_prefix;
  table_name = if str_eq c.table_name "" then "locks" else c.table_name;
}

unfoldable pub get_table_name : Config → String
get_table_name c = c.table_name

unfoldable pub get_ttl : Config → ℤ
get_ttl c = c.ttl

unfoldable pub get_endpoints : Config → List String
get_endpoints c =
    if is_empty c.endpoints && not (str_eq c.host "") then c.host ∷ [] else c.endpoints

-- `Clone`: the fields one by one, the endpoints copied.
unfoldable pub clone : Config → Config
clone c = record {
  host = c.host;
  port = c.port;
  password = c.password;
  db = c.db;
  ttl = c.ttl;
  key_prefix = c.key_prefix;
  endpoints = c.endpoints;
  table_name = c.table_name;
}

-- `GetType`
unfoldable pub get_type : Config → String
get_type c = "redis"

-- `NewRedisConfig`
unfoldable pub new_config : Config
new_config = record {
  host = "localhost";
  port = pos 6379;
  password = "";
  db = pos 0;
  ttl = pos 15;
  key_prefix = "lock";
  endpoints = [];
  table_name = "locks";
}
