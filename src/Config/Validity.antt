-- ===== src/Config/Validity.antt =====
-- internal/config: a configuration from its loading through all that the watcher does.
use quorum_quest.Prelude.{String, Bool, true, Option, List, [], ◌≡◌, arith}
use quorum_quest.Program.{Result, ok}
use quorum_quest.Config.{System, Error, parse_file, load_from_file, load_config}
use quorum_quest.Config.Loader.{Loader, load, watch_config}
use quorum_quest.Config.Watching.{ConfigLoader, Event, watch_all, watch_all_valid}

module _ {C : Type 0} (loader : String → Result String C) (default : C) (override : C → C)
    (valid : C → Bool) (default_valid : valid (override default) ≡ true)
    (sound : (content : String) (c : C) → loader content ≡ ok c → valid (override c) ≡ true) where
  parse_file_valid :
      (os : System) (file : Result Error String) (c : C)
      → parse_file os loader file ≡ ok c
      → valid (override c) ≡ true
  unfolding parse_file
  parse_file_valid os file c h = grind (arith, sound)

  load_from_file_valid :
      (os : System) (path : String) (c : C)
      → load_from_file os loader path ≡ ok c
      → valid (override c) ≡ true
  unfolding load_from_file
  load_from_file_valid os path c h = grind (arith, parse_file_valid)

  load_config_valid :
      (os : System) (contains : String → String → Bool) (path : String) (c : C)
      → load_config os loader contains default override path ≡ ok c
      → valid c ≡ true
  unfolding load_config
  load_config_valid os contains path c h = grind (arith, load_from_file_valid, default_valid)

  loaded :
      (os : System) (contains : String → String → Bool) (make : Option String)
      (dir : String → String) (add : String → Option String) (path : String) (l : Loader C) (c : C)
      → (load os loader contains default override make dir add path).0 ≡ ok (l, c)
      → load_config os loader contains default override path ≡ ok c
  unfolding load watch_config
  loaded os contains make dir add path l c h = ground arith

  -- The fields of a loader that its watching goroutine reads and writes.
  abbrev pub watched : Loader C → C → ConfigLoader C
  watched l c = record {
    config_path = l.config_path;
    current_config = c;
    last_error = l.last_error;
    watchers = l.watchers;
    notified = [];
  }

  -- From its loading on, whatever file is found or none, and whatever is written to the files and
  -- fails later, the current configuration has every property that the loader and the environment
  -- give to what they load, and the environment to the default.
  pub loaded_stays_valid :
      (os : System) (contains : String → String → Bool) (make : Option String)
      (dir : String → String) (add : String → Option String) (path : String) (l : Loader C) (c : C)
      → (load os loader contains default override make dir add path).0 ≡ ok (l, c)
      → (es : List (System × Event))
      → valid (watch_all loader override es (watched l c)).current_config ≡ true
  loaded_stays_valid os contains make dir add path l c h es =
      watch_all_valid loader override valid sound es (watched l c)
        (load_config_valid os contains path c (loaded os contains make dir add path l c h))
