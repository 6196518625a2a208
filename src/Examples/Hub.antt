-- ===== src/Examples/Hub.antt =====
-- A controller that starts.
use fuzzy_chat.Prelude.{ℕ, String, [], Option, some, none, ok, panic, ◌≡◌, refl, ◌<◌, ◌^◌}
use fuzzy_chat.Crosscutting.Component.{
  Component, ComponentDescriptor, ConnectionSettings, get_connection_settings, from_descriptor,
}
use fuzzy_chat.Crosscutting.Endpoint.{get_local_socket_address, to_socket_address}
use fuzzy_chat.Crosscutting.Serving.{serve}
use fuzzy_chat.Crosscutting.Settings.{
  get_logs_path, get_env_variable, get_certificates_dir, load, load_tls_identity, parse_u8,
}
use fuzzy_chat.Crosscutting.Settings.Logger.{setup_logger, log_level}
use fuzzy_chat.Controller.Runs.{Reachable, after, blank, seeds}
use fuzzy_chat.Controller.Server.{services, start_server_handler}
use fuzzy_chat.Controller.Server.Main.{Running, main, seeded}
use fuzzy_chat.Controller.Server.Main.Starting.{main-Reachable}
use fuzzy_chat.Controller.Startup.{initialize, create_domain_components}
use fuzzy_chat.Controller.Storage.Choice.{
  RepositoryType, get_from_env, create_member_repository, create_route_repository,
  create_session_repository,
}
use fuzzy_chat.Examples.States.{home}
use fuzzy_chat.Examples.Gateway.{system}
use fuzzy_chat.Examples.Runs.{csv}
use fuzzy_chat.Examples.Starting.{tonic, logging}
use fuzzy_chat.Examples.Startup.{addresses}

-- Nobody connects to Redis.
abbrev no_redis : String → Option ℕ
no_redis url = none

abbrev hub_settings : ConnectionSettings
hub_settings = record { ip = "5001"; port = 5001; domain_name = "5001"; certificate = [] }

abbrev hub_loaded : ComponentDescriptor
hub_loaded =
    ComponentDescriptor.controller (record { uid = "5001"; pwd = "5001" }) hub_settings "1.0.0"

abbrev hub_running : Running
hub_running = record {
  descriptor = hub_loaded;
  state = after addresses hub_loaded (seeds system csv) blank;
  server = some (record { address = home; identity = ([], []); service = services "1.0.0" });
}

hub_in_memory : get_from_env system ≡ RepositoryType.in_memory
unfolding get_from_env get_env_variable parse_u8
hub_in_memory = refl

hub_runs :
    main addresses tonic logging (some "host") csv no_redis (λ d m. panic) system ≡ ok hub_running
unfolding main setup_logger load log_level get_logs_path get_local_socket_address
    get_connection_settings start_server_handler serve load_tls_identity get_certificates_dir
    to_socket_address create_domain_components get_from_env get_env_variable parse_u8
    create_session_repository create_route_repository create_member_repository seeded initialize
    after
hub_runs = refl

hub_reached :
    (from_descriptor hub_loaded ≡ Component.controller)
    × ((get_connection_settings hub_loaded).port < 2 ^ 16)
    × Reachable addresses hub_loaded (after addresses hub_loaded (seeds system csv) blank)
hub_reached =
    main-Reachable addresses tonic logging (some "host") csv no_redis (λ d m. panic) system
      hub_running hub_in_memory hub_runs
