-- ===== src/Config/RedisLoader.antt =====
-- internal/config/loaders.go, RedisConfigLoader: a Redis configuration from a document that YAML has read.
use quorum_quest.Prelude.{
  ℤ, pos, negsuc, IsInt32, String, str_eq, str_dec, Option, none, some, List, [], ◌∷◌, ◌++◌, ◌≡◌,
  refl, arith, ap, if◌then◌else◌,
}
use quorum_quest.Redis.Config.{Config, new_config}
use quorum_quest.Config.Overrides.{wrap32}

-- The dynamic values: strings, ints, slices, maps with string keys (an entry for a key), and others.
mutual
  pub data Yaml : Type 0 where
    text : String → Yaml
    number : ℤ → Yaml
    sequence : Yamls → Yaml
    mapping : Entries → Yaml
    other : Yaml

  pub data Yamls : Type 0 where
    no_items : Yamls
    item : Yaml → Yamls → Yamls

  pub data Entries : Type 0 where
    no_entries : Entries
    entry : String → Yaml → Entries → Entries

unfoldable pub look_up : String → Entries → Option Yaml
look_up key no_entries = none
look_up key (entry k v es) = let rest = look_up key es in if str_eq k key then some v else rest

-- A value of the wanted type, or the field as it is.
abbrev text_or : String → Option Yaml → String
text_or default (some (text s)) = s
text_or default _ = default

abbrev number_or : ℤ → Option Yaml → ℤ
number_or default (some (number n)) = n
number_or default _ = default

-- `int32(ttl)` of the int.
abbrev int32_or : ℤ → Option Yaml → ℤ
int32_or default (some (number n)) = wrap32 n
int32_or default _ = default

abbrev texts_of : Yamls → List String
texts_of no_items = []
texts_of (item (text s) vs) = s ∷ texts_of vs
texts_of (item _ vs) = texts_of vs

-- `append` to the endpoints of the default.
abbrev texts_or : List String → Option Yaml → List String
texts_or default (some (sequence vs)) = default ++ texts_of vs
texts_or default _ = default

store_config : Config → Entries → Config
unfolding look_up
store_config c m = record {
  host = text_or c.host (look_up "host" m);
  port = number_or c.port (look_up "port" m);
  password = text_or c.password (look_up "password" m);
  db = number_or c.db (look_up "db" m);
  ttl = int32_or c.ttl (look_up "ttl" m);
  key_prefix = text_or c.key_prefix (look_up "keyPrefix" m);
  endpoints = texts_or c.endpoints (look_up "endpoints" m);
  table_name = text_or c.table_name (look_up "tableName" m);
}

unfoldable pub redis_config_loader : Entries → Config
unfolding store_config
redis_config_loader config = elim (look_up "store" config) [
  | none ↦ new_config
  | some v ↦ elim v [ mapping m ↦ store_config new_config m | _ ↦ new_config ]
]

-- The document of a configuration, with the name under which it gives the prefix of the keys:
-- `keyPrefix` in the tests of the loader, `key_prefix` in README.md and in
-- cmd/quorum-quest-service/sample_configs/redis-config.yaml.
abbrev items : List String → Yamls
items [] = no_items
items (s ∷ ss) = item (text s) (items ss)

abbrev pub store_entries : String → Config → Entries
store_entries prefix_name c = entry "host" (text c.host) (
    entry "port" (number c.port) (
      entry "password" (text c.password) (
        entry "db" (number c.db) (
          entry "ttl" (number c.ttl) (
            entry prefix_name (text c.key_prefix) (
              entry "tableName" (text c.table_name)
                (entry "endpoints" (sequence (items c.endpoints)) no_entries)))))))

abbrev pub document : String → Config → Entries
document prefix_name c = entry "store" (mapping (store_entries prefix_name c)) no_entries

texts_of-items : (ss : List String) → texts_of (items ss) ≡ ss
texts_of-items [] = refl
texts_of-items (s ∷ ss) = ap (λ t. s ∷ t) (texts_of-items ss)

wrap32_small : (z : ℤ) → IsInt32 z → wrap32 z ≡ z
wrap32_small (pos n) h = ground arith
wrap32_small (negsuc n) h = ground arith

-- The document of a configuration whose TTL fits into 32 bits is read back as that configuration where it
-- names the prefix `keyPrefix`. Where it names it `key_prefix`, as README.md and the sample do, the
-- prefix that it gives is not read, and the default one stands; all else is read back.
pub redis_config_loader-document :
    (c : Config)
    → IsInt32 c.ttl
    → (redis_config_loader (document "keyPrefix" c) ≡ c)
      × (redis_config_loader (document "key_prefix" c)
          ≡ record c { key_prefix = new_config.key_prefix })
unfolding redis_config_loader store_config look_up str_dec new_config
redis_config_loader-document c h = (
  rw (wrap32_small c.ttl h, texts_of-items c.endpoints) refl,
  rw (wrap32_small c.ttl h, texts_of-items c.endpoints) refl,
)
