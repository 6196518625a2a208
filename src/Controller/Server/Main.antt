-- ===== src/Controller/Server/Main.antt =====
-- `main` of controller/src/main.rs, until it waits for the signal, for repositories in memory. What a
-- controller over Redis comes to is an argument.
pub mod Starting
use fuzzy_chat.Prelude.{
  String, List, Option, Outcome, ok, err, panic, Bool, true, false, ◌⊎◌, inl, inr, lift, pure,
  if◌then◌else◌, ◌>>=◌, ◌>>◌,
}
use fuzzy_chat.Crosscutting.Component.{Component, ComponentDescriptor}
use fuzzy_chat.Crosscutting.Endpoint.{AddrText}
use fuzzy_chat.Crosscutting.Serving.{Tonic, Serving}
use fuzzy_chat.Crosscutting.Settings.{System, get_default_log_file_name, load}
use fuzzy_chat.Crosscutting.Settings.Logger.{Logging, setup_logger}
use fuzzy_chat.Controller.Runs.{blank}
use fuzzy_chat.Controller.Server.{Services, start_server_handler}
use fuzzy_chat.Controller.Startup.{initialize, create_domain_components}
use fuzzy_chat.Controller.State.{Controller}

-- What has been started: the managers hold `state`, and the task that announces the controller sets
-- sessions of `descriptor`.
pub record Running : Type 0 where
  pub descriptor : ComponentDescriptor
  pub state : Controller
  pub server : Option (Serving Services)

-- A manager's repository in memory, or in Redis.
abbrev pub Kept : Type 0 → Type 0
Kept R = ◌⊎◌ {0, 0} Unit R

-- Whether a manager keeps its data in memory.
abbrev pub is_memory : {R : Type 0} → Kept R → Bool
is_memory (inl _) = true
is_memory (inr _) = false

abbrev pub Managers : Type 0 → Type 0
Managers R = Kept R × Kept R × Kept R

-- `initialize(...).await?`
unfoldable pub seeded :
    System → (String → Option (List (Option (List String)))) → Outcome String Controller
unfolding initialize
seeded system records_of = elim (initialize system records_of blank).0 [
  | ok _ ↦ ok (initialize system records_of blank).1
  | err e ↦ err "Initialization failed"
  | panic ↦ panic
]

unfoldable pub main :
    {R Level : Type 0}
    → AddrText
    → Tonic
    → Logging Level
    → Option String
    → (String → Option (List (Option (List String))))
    → (String → Option R)
    → (ComponentDescriptor → Managers R → Outcome String Running)
    → System
    → Outcome String Running
unfolding get_default_log_file_name setup_logger load create_domain_components seeded
    start_server_handler
main addresses tonic logging hostname records_of connect over_redis system =
    ((do
      lift (setup_logger logging (get_default_log_file_name hostname "controller") system).0
      descriptor ← lift (load Component.controller system).0
      managers ← lift (create_domain_components tt connect system)
      if is_memory managers.0
          then (do
            state ← lift (seeded system records_of)
            pure (record {
              descriptor = descriptor;
              state = state;
              server = start_server_handler addresses tonic system descriptor;
            }))
          else lift (over_redis descriptor managers))
      tt).0
