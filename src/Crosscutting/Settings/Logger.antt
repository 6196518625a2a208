-- ===== src/Crosscutting/Settings/Logger.antt =====
-- `setup_logger` of crosscutting/src/settings/logging.rs. What is made of the directory, the file and
-- the level, by `std`, `log` and `fern`, is an argument.
use fuzzy_chat.Prelude.{
  String, Bool, Option, Outcome, ok, lift, pure, unwrap_or, if◌then◌else◌, ◌>>=◌, ◌>>◌,
}
use fuzzy_chat.Crosscutting.Settings.{System, Setting, get_env_variable, get_logs_path}

-- `LevelFilter::Debug` is the level that is taken where the text names none.
pub record Logging (Level : Type 0) : Type 0 where
  pub ends_with : String → String → Bool
  pub exists : String → Bool
  pub create_dir_all : String → Outcome String Unit
  pub from_str : String → Option Level
  pub debug : Level
  pub log_file : String → Outcome String Unit
  pub apply : Outcome String Unit

-- What is logged from then on: down to a level, to the standard output and a file.
pub record Logger (Level : Type 0) : Type 0 where
  pub level : Level
  pub file : String

module _ {Level : Type 0} (l : Logging Level) where
  unfoldable pub log_level : System → Level
  unfolding get_env_variable
  log_level system = elim (get_env_variable "LOG_LEVEL" system).0 [
    | ok text ↦ unwrap_or (l.from_str text) l.debug
    | _ ↦ unwrap_or (l.from_str "debug") l.debug
  ]

  unfoldable pub setup_logger : String → Setting (Logger Level)
  unfolding get_logs_path log_level
  setup_logger file_name = do
    log_dir ← get_logs_path l.ends_with
    lift (if l.exists log_dir then ok tt else l.create_dir_all log_dir)
    λ system.
        (do
          lift (l.log_file (system.join log_dir file_name))
          lift l.apply
          pure (record { level = log_level system; file = system.join log_dir file_name }))
          system
