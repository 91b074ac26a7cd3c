-- ===== src/Config.antt =====
-- internal/config: the search for a configuration file, its loading and its watching. The file system,
-- the environment, YAML, and the text functions of Go's library that depend on Unicode are parameters.
pub mod Detection
pub mod Loading
pub mod Watching
pub mod Overrides
pub mod Stability
pub mod Loader
pub mod Validity
pub mod RedisLoader
mod Tests
use quorum_quest.Prelude.{
  String, str_eq, Bool, true, false, not, ◌||◌, Option, none, some, List, [], ◌∷◌, if◌then◌else◌,
  ◌<>◌,
}
use quorum_quest.Program.{Result, ok, err}

-- An error of `os.Stat`.
pub data StatError : Type 0 where
  not_exist : String → StatError
  other : String → StatError

-- What the code asks of the operating system: whether a path is a directory, the content of a file,
-- the variables of the environment, and how paths are joined and end.
pub record System : Type 0 where
  pub stat : String → Result StatError Bool
  pub read_file : String → Result String String
  pub look_up_env : String → Option String
  pub join : String → String → String
  pub base : String → String

-- `os.Getenv`
abbrev pub get_env : System → String → String
get_env os name = elim (os.look_up_env name) [ none ↦ "" | some v ↦ v ]

abbrev pub file_names : List String
file_names = "config.yaml" ∷ "config.yml" ∷ "quorum-quest.yaml" ∷ "quorum-quest.yml" ∷ []

abbrev mem : String → List String → Bool
mem s [] = false
mem s (t ∷ ts) = str_eq s t || mem s ts

unfoldable pub is_config_file_name : String → Bool
is_config_file_name name = mem name file_names

unfoldable pub is_config_file : System → String → Bool
unfolding is_config_file_name
is_config_file os path = is_config_file_name (os.base path)

-- The first of the names in the directory that passes the test.
unfoldable pub first_candidate :
    System → (Result StatError Bool → Bool) → String → List String → Option String
first_candidate os test path [] = none
first_candidate os test path (name ∷ names) =
    let rest = first_candidate os test path names in
    if test (os.stat (os.join path name)) then some (os.join path name) else rest

-- `err == nil`, as loadFromFile and resolveConfigFilePath test a candidate.
abbrev pub exists : Result StatError Bool → Bool
exists (ok is_dir) = true
exists (err e) = false

-- `err == nil && !fi.IsDir()`, as DetectBackendType does.
abbrev pub is_file : Result StatError Bool → Bool
is_file (ok is_dir) = not is_dir
is_file (err e) = false

pub data Error : Type 0 where
  empty_path : Error
  stat_failed : StatError → Error
  not_found : String → Error
  no_config_file : String → Error
  read_failed : String → Error
  parse_failed : String → Error
  unspecified_backend : Error

-- `normalizeBackendType`; `lower` and `trim` are those of Go's package strings.
unfoldable pub normalize_backend_type : (String → String) → (String → String) → String → String
normalize_backend_type lower trim backend =
    let normalized = lower (trim backend) in
    if str_eq normalized "scylla" || str_eq normalized "scylladb"
    then "scylladb"
    else if str_eq normalized "dynamo" || str_eq normalized "dynamodb"
    then "dynamodb"
    else normalized

-- The file of a path that `os.Stat` has answered.
unfoldable pub config_file :
    System → (Result StatError Bool → Bool) → Bool → String → Result Error String
unfolding first_candidate
config_file os test false path = ok path
config_file os test true path = elim (first_candidate os test path file_names) [
  | none ↦ err (no_config_file path)
  | some file ↦ ok file
]

-- `DetectBackendType`. `backend_of` reads the type of the backend from YAML.
module _ (os : System) (lower trim : String → String)
    (backend_of : String → Result String String) where
  read_backend : Result Error String → Result Error String
  read_backend (err e) = err e
  read_backend (ok file) = elim (os.read_file file) [
    | err m ↦ err (read_failed m)
    | ok content ↦ elim (backend_of content) [
      | err m ↦ err (parse_failed m)
      | ok backend ↦
          if str_eq backend ""
          then err unspecified_backend
          else ok (normalize_backend_type lower trim backend)
    ]
  ]

  file_backend : String → Result Error String
  unfolding read_backend config_file
  file_backend path = elim (os.stat path) [
    | err e ↦ elim e [ not_exist m ↦ err (not_found path) | other m ↦ err (stat_failed (other m)) ]
    | ok is_dir ↦ read_backend (config_file os is_file is_dir path)
  ]

  unfoldable pub detect_backend_type : String → Result Error String
  unfolding file_backend
  detect_backend_type path =
      if not (str_eq (get_env os "QUORUMQUEST_BACKEND_TYPE") "")
      then ok (normalize_backend_type lower trim (get_env os "QUORUMQUEST_BACKEND_TYPE"))
      else if not (str_eq (get_env os "QUORUMQUEST_BACKEND") "")
      then ok (normalize_backend_type lower trim (get_env os "QUORUMQUEST_BACKEND"))
      else file_backend path

-- `resolveConfigFilePath`
unfoldable pub resolve_config_file_path : System → String → Result Error String
unfolding config_file
resolve_config_file_path os path = if str_eq path "" then err empty_path else elim (os.stat path) [
  | err e ↦ err (stat_failed e)
  | ok is_dir ↦ config_file os exists is_dir path
]

-- `loadFromFile`. `loader` is the `ConfigLoaderFunc`, with its result's type already tested.
module _ {C : Type 0} (os : System) (loader : String → Result String C) where
  pub parse_file : Result Error String → Result Error C
  parse_file (err e) = err e
  parse_file (ok file) = elim (os.read_file file) [
    | err m ↦ err (read_failed m)
    | ok content ↦ elim (loader content) [ err m ↦ err (parse_failed m) | ok c ↦ ok c ]
  ]

  unfoldable pub load_from_file : String → Result Error C
  unfolding parse_file config_file
  load_from_file path = elim (os.stat path) [
    | err e ↦ err (stat_failed e)
    | ok is_dir ↦ parse_file (config_file os exists is_dir path)
  ]

  error_text : Error → String
  error_text empty_path = "config path cannot be empty"
  error_text (stat_failed (not_exist m)) = m
  error_text (stat_failed (other m)) = m
  error_text (not_found path) = "configuration file not found at " <> path
  error_text (no_config_file path) = "no config file found in directory " <> path
  error_text (read_failed m) = "failed to read config file: " <> m
  error_text (parse_failed m) = "failed to parse config: " <> m
  error_text unspecified_backend = "backend type not specified in config"

  -- `os.IsNotExist`, which looks into no wrapped error.
  abbrev is_not_exist : Error → Bool
  is_not_exist (stat_failed (not_exist m)) = true
  is_not_exist e = false

  -- `LoadConfig`, up to its watcher, with the configuration or the error that it returns. `contains`
  -- is `strings.Contains`.
  unfoldable pub load_config : (String → String → Bool) → C → (C → C) → String → Result Error C
  unfolding load_from_file error_text
  load_config contains default override path = elim (load_from_file path) [
    | ok c ↦ ok (override c)
    | err e ↦
        if is_not_exist e || contains (error_text e) "no config file found"
        then ok (override default)
        else err e
  ]
