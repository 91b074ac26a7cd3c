-- ===== src/Config/Loader.antt =====
-- internal/config/loader.go and setupWatcher of internal/config/config.go: the life of a ConfigLoader. What
-- fsnotify and `filepath.Dir` give are parameters.
use quorum_quest.Prelude.{
  String, str_eq, Bool, true, false, Option, none, some, List, [], ◌∷◌, ◌++◌, ◌≡◌, ◌<>◌, arith,
  refl, if◌then◌else◌,
}
use quorum_quest.Program.{Result, ok, err}
use quorum_quest.Config.{System, Error, load_config}

-- A channel, or fsnotify's watcher.
pub data Handle : Type 0 where
  nil opened closed : Handle

-- The fields that the goroutine of the watcher reads and writes are those of Config/Watching.antt; the
-- watchers are known by name. The configuration is nil at first.
pub record Loader (C : Type 0) : Type 0 where
  pub config_path : String
  pub actual_file : String
  pub watcher : Handle
  pub watchers : List String
  pub current_config : Option C
  pub last_error : Option String
  pub stop_chan : Handle

-- How `Close` ends: it closes a closed channel and panics, or returns an error, or nil.
pub data Ending : Type 0 where
  panicked : Ending
  returned : Option String → Ending

-- The errors of `LoadConfig`.
pub data LoadError : Type 0 where
  not_loaded : Error → LoadError
  no_watcher not_watched : String → LoadError

abbrev pub is_open : Handle → Bool
is_open opened = true
is_open nil = false
is_open closed = false

module _ {C : Type 0} where
  -- `NewConfigLoader`
  unfoldable pub new_config_loader : String → Loader C
  new_config_loader path = record {
    config_path = path;
    actual_file = "";
    watcher = nil;
    watchers = [];
    current_config = none;
    last_error = none;
    stop_chan = opened;
  }

  unfoldable pub add_watcher : String → Loader C → Loader C
  add_watcher w l = record l { watchers = l.watchers ++ (w ∷ []) }

  unfoldable pub get_current_config : Loader C → Option C
  get_current_config l = l.current_config

  unfoldable pub get_last_error : Loader C → Option String
  get_last_error l = l.last_error

  -- `Close`; `failure` is what closing the watcher gives.
  unfoldable pub close : Option String → Loader C → Ending × Loader C
  close failure l = elim l.stop_chan [
    | nil ↦ close_watcher l
    | opened ↦ close_watcher (record l { stop_chan = closed })
    | closed ↦ (panicked, l)
  ]
    where
      close_watcher : Loader C → Ending × Loader C
      close_watcher l' = elim l'.watcher [
        | nil ↦ (returned none, l')
        | opened ↦ (returned failure, record l' { watcher = closed })
        | closed ↦ (returned failure, l')
      ]

  -- `setupWatcher`: its error, and the paths that the watcher is asked to watch. `add` is the error
  -- of `watcher.Add`, and `dir` is `filepath.Dir`.
  unfoldable pub setup_watcher :
      (String → String) → (String → Option String) → System → Loader C → Option String × List String
  setup_watcher dir add os l = watch (elim (os.stat l.config_path) [
    | ok is_dir ↦ if is_dir then l.config_path else dir l.config_path
    | err e ↦ dir l.config_path
  ])
    where
      watch : String → Option String × List String
      watch dir_to_watch = elim (add dir_to_watch) [
        | some m ↦
            (some ("failed to watch directory " <> dir_to_watch <> ": " <> m), dir_to_watch ∷ [])
        | none ↦ (
          none,
          if str_eq l.actual_file "" then dir_to_watch ∷ [] else dir_to_watch ∷ l.actual_file ∷ [],
        )
      ]

  -- What `LoadConfig` makes of a configuration.
  abbrev loader_of : String → C → Loader C
  loader_of path c = record {
    config_path = path;
    actual_file = "";
    watcher = opened;
    watchers = [];
    current_config = some c;
    last_error = none;
    stop_chan = nil;
  }

  -- `LoadConfig`: what it returns, and what becomes of the watcher that it makes. `make` is the error
  -- of `fsnotify.NewWatcher`; `contains`, `default` and `override` are those of `load_config`.
  module _ (os : System) (loader : String → Result String C) (contains : String → String → Bool)
      (default : C) (override : C → C) (make : Option String) (dir : String → String)
      (add : String → Option String) where
    unfoldable pub watch_config : String → C → Result LoadError (Loader C × C) × Handle
    unfolding setup_watcher
    watch_config path c = elim make [
      | some m ↦ (err (no_watcher ("failed to create file watcher: " <> m)), nil)
      | none ↦ elim (setup_watcher dir add os (loader_of path c)).0 [
        | some m ↦ (err (not_watched m), closed)
        | none ↦ (ok (loader_of path c, c), opened)
      ]
    ]

    unfoldable pub load : String → Result LoadError (Loader C × C) × Handle
    unfolding watch_config
    load path = elim (load_config os loader contains default override path) [
      | err e ↦ (err (not_loaded e), nil)
      | ok c ↦ watch_config path c
    ]

    -- What a loading leaves behind: after an error no watcher is open; otherwise the watcher is open,
    -- and the loader has the configuration that is returned, which is the one of `load_config`.
    abbrev pub Leaves : String → Result LoadError (Loader C × C) × Handle → Type 0
    Leaves path (err e, handle) = is_open handle ≡ false
    Leaves path (ok (l, c), handle) =
        (handle ≡ opened)
        × (get_current_config l ≡ some c)
        × (get_last_error l ≡ none)
        × (load_config os loader contains default override path ≡ ok c)

    -- Whatever fails, a loading that returns an error leaves no open watcher, and one that succeeds
    -- leaves a watcher that is open and a loader with no error and with the configuration that is
    -- returned, which is the one of `load_config`.
    pub load-Leaves : (path : String) → Leaves path (load path)
    unfolding load watch_config get_current_config get_last_error
    load-Leaves path = ground arith

    -- The loader that LoadConfig returns can be closed again and again.
    pub loaded_closes :
        (path : String) (l : Loader C) (c : C) (failure again : Option String)
        → (load path).0 ≡ ok (l, c)
        → ((close failure l).0 ≡ returned failure)
          × ((close again (close failure l).1).0 ≡ returned again)
    unfolding load watch_config close
    loaded_closes path l c failure again h = ground arith

-- A second Close of a loader from NewConfigLoader, with whatever watcher was added, panics.
pub close_twice_panics :
    (C : Type 0) (path w : String) (failure again : Option String)
    → let l = add_watcher w (new_config_loader {C = C} path) in
      ((close failure l).0 ≡ returned none) × ((close again (close failure l).1).0 ≡ panicked)
unfolding new_config_loader add_watcher close
close_twice_panics C path w failure again = (refl, refl)
