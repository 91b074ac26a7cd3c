-- ===== src/Config/Watching.antt =====
-- internal/config/watcher.go and utils.go: what a ConfigLoader does when its file is written.
use quorum_quest.Prelude.{
  String, Bool, true, Option, none, some, List, [], ◌∷◌, ◌++◌, ◌≡◌, ◌<>◌, arith, if◌then◌else◌,
}
use quorum_quest.Program.{Result, ok, err}
use quorum_quest.Config.{System, is_config_file}

-- The fields that the watching goroutine reads and writes. `notified` lists the calls of the
-- watchers: the watcher's number and the configuration.
pub record ConfigLoader (C : Type 0) : Type 0 where
  pub config_path : String
  pub current_config : C
  pub last_error : Option String
  pub watchers : List String
  pub notified : List (String × C)

-- What `fsnotify` tells: an event on a file, with whether it is a write, or an error.
pub data Event : Type 0 where
  changed : String → Bool → Event
  failed : String → Event

module _ {C : Type 0} where
  notify : C → List String → List (String × C)
  notify c [] = []
  notify c (w ∷ ws) = (w, c) ∷ notify c ws

  -- `updateConfig`, with `notifyWatchers`.
  unfoldable pub update_config : C → ConfigLoader C → ConfigLoader C
  unfolding notify
  update_config c l = record l {
    current_config = c;
    last_error = none;
    notified = l.notified ++ notify c l.watchers;
  }

  -- `handleError`
  unfoldable pub handle_error : String → ConfigLoader C → ConfigLoader C
  handle_error m l = record l { last_error = some m }

  -- `resolveConfigPath`
  unfoldable pub resolve_config_path : System → String → ConfigLoader C → String
  resolve_config_path os event_path l = elim (os.stat l.config_path) [
    | ok is_dir ↦ if is_dir then event_path else l.config_path
    | err e ↦ l.config_path
  ]

  -- `handleFileModification`, after the wait. `loader` is the loader's function and `override` applies
  -- the environment.
  unfoldable pub handle_file_modification :
      (String → Result String C) → (C → C) → System → String → ConfigLoader C → ConfigLoader C
  unfolding update_config handle_error resolve_config_path
  handle_file_modification loader override os path l =
      elim (os.read_file (resolve_config_path os path l)) [
        | err m ↦ handle_error ("error reading config file: " <> m) l
        | ok content ↦ elim (loader content) [
          | err m ↦ handle_error ("error parsing config: " <> m) l
          | ok c ↦ update_config (override c) l
        ]
      ]

  -- One turn of `watchConfig`.
  unfoldable pub watch :
      (String → Result String C) → (C → C) → System → Event → ConfigLoader C → ConfigLoader C
  unfolding handle_file_modification
  watch loader override os (changed path written) l =
      if is_config_file os path
      then if written then handle_file_modification loader override os path l else l
      else l
  watch loader override os (failed m) l = record l { last_error = some m }

  -- Events in turn, each with the file system that it finds.
  unfoldable pub watch_all :
      (String → Result String C) → (C → C) → List (System × Event) → ConfigLoader C → ConfigLoader C
  watch_all loader override [] l = l
  watch_all loader override ((os, e) ∷ es) l =
      watch_all loader override es (watch loader override os e l)

  -- A turn of the watcher after which there is an error has kept the configuration and called no
  -- watcher.
  pub watch_keeps :
      (loader : String → Result String C) (override : C → C) (os : System) (e : Event)
      (l : ConfigLoader C) (m : String)
      → (watch loader override os e l).last_error ≡ some m
      → ((watch loader override os e l).current_config ≡ l.current_config)
        × ((watch loader override os e l).notified ≡ l.notified)
  unfolding watch handle_file_modification update_config handle_error
  watch_keeps loader override os e l m h = ground arith

  watch_valid :
      (loader : String → Result String C) (override : C → C) (valid : C → Bool)
      → ((content : String) (c : C) → loader content ≡ ok c → valid (override c) ≡ true)
      → (os : System) (e : Event) (l : ConfigLoader C) → valid l.current_config ≡ true
      → valid (watch loader override os e l).current_config ≡ true
  unfolding watch handle_file_modification update_config handle_error
  watch_valid loader override valid sound os e l h = grind (arith, sound)

  -- Whatever is written to the files, and whatever fails, the current configuration has every
  -- property that the first one has and that the loader and the environment give to what they load.
  pub watch_all_valid :
      (loader : String → Result String C) (override : C → C) (valid : C → Bool)
      → ((content : String) (c : C) → loader content ≡ ok c → valid (override c) ≡ true)
      → (es : List (System × Event)) (l : ConfigLoader C) → valid l.current_config ≡ true
      → valid (watch_all loader override es l).current_config ≡ true
  unfolding watch_all
  watch_all_valid loader override valid sound [] l h = h
  watch_all_valid loader override valid sound ((os, e) ∷ es) l h =
      watch_all_valid loader override valid sound es (watch loader override os e l)
        (watch_valid loader override valid sound os e l h)
