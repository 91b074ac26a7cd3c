-- ===== src/Config/Tests.antt =====
-- Runs of internal/config, and the witnesses.
use quorum_quest.Prelude.{
  ℕ, pos, String, str_dec, ◌<>◌, Bool, true, false, Option, none, some, List, [], ◌∷◌, ◌≡◌, refl,
  arith, ltb, ltb→lt, zero, suc, ◌≤◌, ◌⊎◌,
}
use quorum_quest.Program.{Result, ok, err}
use quorum_quest.Redis.Config as RedisConfig
use quorum_quest.Config.{
  System, StatError, not_exist, config_file, detect_backend_type, normalize_backend_type,
  load_config, load_from_file, parse_file, first_candidate,
}
use quorum_quest.Config.Loader.{
  Loader, opened, nil, load, watch_config, setup_watcher, Leaves, load-Leaves,
}
use quorum_quest.Config.Validity.{loaded_stays_valid}
use quorum_quest.Config.RedisLoader.{redis_config_loader, document, redis_config_loader-document}
use quorum_quest.Config.Stability.{
  wait_for_file_stability, count, total, is_settled, wait_for_file_stability_ends,
}
use quorum_quest.Config.Watching.{changed, watch_all}
use quorum_quest.Config.Overrides.{
  bits_32, number, group, Fields, field, no_more, points_to, Parsers, process_struct,
  apply_environment_overrides,
}
use quorum_quest.Config.Overrides.Paths.{
  find, at, IsOverridden, apply_environment_overrides_by_path,
}

-- A directory "conf" with the one file "conf/config.yml".
abbrev stat_conf : String → Result StatError Bool
stat_conf path = elim (str_dec path "conf") [
  | yes _ ↦ ok true
  | no _ ↦ elim (str_dec path "conf/config.yml") [ yes _ ↦ ok false | no _ ↦ err (not_exist path) ]
]

abbrev conf : System
conf = record {
  stat = stat_conf;
  read_file = λ path. ok "content";
  look_up_env = λ name. none;
  join = λ d f. d <> "/" <> f;
  base = λ path. path;
}

abbrev same : String → String
same s = s

detected : detect_backend_type conf same same (λ content. ok "scylla") "conf" ≡ ok "scylladb"
unfolding detect_backend_type normalize_backend_type config_file first_candidate str_dec
detected = refl

-- A loader whose configuration is a number, 7 for every content.
abbrev seven : String → Result String ℕ
seven content = ok 7

abbrev below_ten : ℕ → Bool
below_ten n = ltb n 10

abbrev loaded_seven : Loader ℕ
loaded_seven = record {
  config_path = "conf";
  actual_file = "";
  watcher = opened;
  watchers = [];
  current_config = some 7;
  last_error = none;
  stop_chan = nil;
}

loaded_stays_valid_example :
    below_ten
      (watch_all seven
        (λ n. n)
        ((conf, changed "config.yml" true) ∷ [])
        (record {
          config_path = "conf";
          current_config = 7;
          last_error = none;
          watchers = [];
          notified = [];
        })).current_config
    ≡ true
unfolding load watch_config load_config load_from_file parse_file config_file first_candidate
    str_dec setup_watcher
loaded_stays_valid_example =
    loaded_stays_valid seven 3 (λ n. n) below_ten refl (λ content c h. ground arith) conf
      (λ s t. false) none (λ p. p) (λ p. none) "conf" loaded_seven 7 refl
      ((conf, changed "config.yml" true) ∷ [])

abbrev settings : Fields
settings = field "store" (group (field "ttl" (number bits_32 (pos 15)) no_more)) no_more

abbrev environment : String → Option String
environment name = elim (str_dec name "QUORUMQUEST_store_ttl") [ yes _ ↦ some "7" | no _ ↦ none ]

-- The variable is read as 2^32 + 7.
abbrev parse_large : Parsers
parse_large = record {
  parse_int = λ s. some (pos 4294967303);
  parse_uint = λ s. none;
  parse_float = λ s. none;
  parse_bool = λ s. none;
  to_float_32 = λ x. x;
}

abbrev whole : String → List String
whole s = s ∷ []

overridden :
    process_struct environment parse_large same whole same settings "QUORUMQUEST"
    ≡ field "store" (group (field "ttl" (number bits_32 (pos 7)) no_more)) no_more
unfolding process_struct str_dec
overridden = refl

apply_environment_overrides_by_path_example :
    let settings' =
      group (process_struct environment parse_large same whole same settings "QUORUMQUEST") in
    (apply_environment_overrides environment parse_large same whole same
        (points_to (group settings))
      ≡ points_to settings')
    × IsOverridden environment parse_large same whole same settings'
        ("store" ∷ "ttl" ∷ [])
        (number bits_32 (pos 15))
unfolding at find str_dec
apply_environment_overrides_by_path_example =
    apply_environment_overrides_by_path environment parse_large same whole same settings
      ("store" ∷ "ttl" ∷ []) (number bits_32 (pos 15)) refl refl

-- A file of 10 bytes, then of 12.
abbrev growing : ℕ → Option ℕ
growing zero = some 10
growing (suc n) = some 12

wait_for_file_stability_ends_example :
    (count (wait_for_file_stability conf growing) ≤ 3)
    × (total (wait_for_file_stability conf growing) ≤ 350)
    × ((count (wait_for_file_stability conf growing) ≡ 3)
        ⊎ (is_settled growing (count (wait_for_file_stability conf growing)) ≡ true))
unfolding str_dec
wait_for_file_stability_ends_example = wait_for_file_stability_ends conf growing refl

-- A watcher that refuses the directory.
load-Leaves_example :
    Leaves {C = ℕ} conf
      (λ content. ok 7)
      (λ s t. false)
      5
      (λ n. n)
      none
      (λ p. p)
      (λ p. some "no such device")
      "conf"
      (load conf
        (λ content. ok 7)
        (λ s t. false)
        5
        (λ n. n)
        none
        (λ p. p)
        (λ p. some "no such device")
        "conf")
load-Leaves_example =
    load-Leaves conf (λ content. ok 7) (λ s t. false) 5 (λ n. n) none (λ p. p)
      (λ p. some "no such device") "conf"

abbrev redis_config : RedisConfig.Config
redis_config = record {
  host = "cache";
  port = pos 6380;
  password = "p";
  db = pos 1;
  ttl = pos 30;
  key_prefix = "k";
  endpoints = "a:1" ∷ "b:2" ∷ [];
  table_name = "t";
}

redis_config_loader-document_example :
    (redis_config_loader (document "keyPrefix" redis_config) ≡ redis_config)
    × (redis_config_loader (document "key_prefix" redis_config)
        ≡ record redis_config { key_prefix = RedisConfig.new_config.key_prefix })
redis_config_loader-document_example =
    redis_config_loader-document redis_config (ltb→lt 30 2147483648 refl)
