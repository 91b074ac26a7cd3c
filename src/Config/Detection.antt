-- ===== src/Config/Detection.antt =====
-- internal/config: the file that the detection of the backend reads, and the one that is loaded.
use quorum_quest.Prelude.{
  text_ne, String, Bool, true, false, none, List, [], ◌∷◌, ◌≡◌, refl, arith, if◌then◌else◌,
}
use quorum_quest.Program.{ok, err}
use quorum_quest.Config.{
  System, exists, is_file, first_candidate, config_file, file_names, normalize_backend_type,
}

-- What `os.Stat` says is there, but for a directory under the name of a candidate.
abbrev pub no_directory : System → String → List String → Bool
no_directory os path [] = true
no_directory os path (name ∷ names) =
    let rest = no_directory os path names in
    elim (os.stat (os.join path name)) [ ok is_dir ↦ if is_dir then false else rest | err e ↦ rest ]

rest_agrees :
    (os : System) (path name : String) (names : List String)
    → no_directory os path (name ∷ names) ≡ true
    → no_directory os path names ≡ true
rest_agrees os path name names h = ground arith

first_candidate_agrees :
    (os : System) (path : String) (names : List String)
    → no_directory os path names ≡ true
    → first_candidate os is_file path names ≡ first_candidate os exists path names
unfolding first_candidate
first_candidate_agrees os path [] h = refl
first_candidate_agrees os path (name ∷ names) h =
    ground (arith, first_candidate_agrees os path names (rest_agrees os path name names h))

-- Where no directory has the name of a configuration file, the detection of the backend reads the
-- file that is loaded, or neither finds one.
pub config_file_agrees :
    (os : System) (path : String) (is_dir : Bool)
    → no_directory os path file_names ≡ true
    → config_file os is_file is_dir path ≡ config_file os exists is_dir path
unfolding config_file
config_file_agrees os path false h = refl
config_file_agrees os path true h = ground (arith, first_candidate_agrees os path file_names h)

-- A directory "config.yaml" is taken for the configuration file by the loading, and is passed over by
-- the detection.
pub config_file_differs :
    (os : System) (path : String)
    → os.stat (os.join path "config.yaml") ≡ ok true
    → (config_file os exists true path ≡ ok (os.join path "config.yaml"))
      × (first_candidate os is_file path ("config.yaml" ∷ []) ≡ none)
unfolding config_file first_candidate
config_file_differs os path h = ground arith

-- A backend's type that is normal stays as it is, where `lower` and `trim` leave what they return.
pub normalize_backend_type_idempotent :
    (lower trim : String → String)
    → ((s : String) → lower (trim (lower (trim s))) ≡ lower (trim s))
    → lower (trim "scylladb") ≡ "scylladb"
    → lower (trim "dynamodb") ≡ "dynamodb"
    → (s : String)
    → normalize_backend_type lower trim (normalize_backend_type lower trim s)
      ≡ normalize_backend_type lower trim s
unfolding normalize_backend_type
normalize_backend_type_idempotent lower trim twice scylla dynamo s =
    ground (arith, twice s, text_ne "dynamodb" "scylla" refl, text_ne "dynamodb" "scylladb" refl)
