-- ===== src/Examples/Starting.antt =====
-- A proxy that starts, and clients that open their channels.
use fuzzy_chat.Prelude.{
  String, [], ℕ, some, none, ok, err, ◌≡◌, refl, true, Exec, status, unauthenticated,
}
use fuzzy_chat.Prelude.Int.{pos}
use fuzzy_chat.Controller.State.{Controller}
use fuzzy_chat.Crosscutting.Component.{Component, ComponentDescriptor, get_connection_settings}
use fuzzy_chat.Crosscutting.Endpoint.{get_local_socket_address, to_socket_address}
use fuzzy_chat.Crosscutting.Serving.{Tonic, Serving, serve}
use fuzzy_chat.Crosscutting.Settings.{
  get_logs_path, get_certificates_dir, load, load_tls_identity, parse_u16,
}
use fuzzy_chat.Crosscutting.Settings.Logger.{Logging, setup_logger, log_level}
use fuzzy_chat.Gateway.AuthService.{auth_service}
use fuzzy_chat.Gateway.Channels.{Transport, open_channel, controller_channel}
use fuzzy_chat.Gateway.Clients.{CommandRequest, Proxy, Lander}
use fuzzy_chat.Gateway.Session.{AuthClient, AuthService, auth_client, new_client, no_session}
use fuzzy_chat.Gateway.Session as Gateway
use fuzzy_chat.Proxy.Clients.Connected.{controller_channel_lem}
use fuzzy_chat.Proxy.Server.{ProxyService, Running, start, start_server_handler, main}
use fuzzy_chat.Proxy.Server.Starting.{main_refuses}
use fuzzy_chat.Proxy.Service.{execute_command}
use fuzzy_chat.Examples.States.{demo, home}
use fuzzy_chat.Examples.Delivery.{shown, uris, nobody, debug}
use fuzzy_chat.Examples.Gateway.{system, loaded}
use fuzzy_chat.Examples.Startup.{addresses}

abbrev pub tonic : Tonic
tonic = record { tls_config = λ identity. true; listen = λ address. ok tt }

-- Every directory is there, and every file can be written.
abbrev pub logging : Logging ℕ
logging = record {
  ends_with = λ path name. true;
  exists = λ path. true;
  create_dir_all = λ path. ok tt;
  from_str = λ text. none;
  debug = 4;
  log_file = λ path. ok tt;
  apply = ok tt;
}

abbrev controller_service : AuthService Controller
controller_service = auth_service 9 "kn" (pos 1) home shown "lost"

abbrev reached : Exec Controller String (AuthService Controller)
reached s = (ok controller_service, s)

abbrev running_server : Serving (ProxyService (AuthClient Controller))
running_server = record {
  address = home;
  identity = ([], []);
  service = execute_command uris nobody auth_client debug;
}

abbrev running : Running Controller
running = record {
  client = record (new_client no_session loaded demo) { client = some controller_service };
  server = some running_server;
}

runs :
    main uris addresses nobody debug tonic logging (some "host") reached auth_client system demo
    ≡ ok running
unfolding main setup_logger load log_level get_logs_path Gateway.initialize get_local_socket_address
    get_connection_settings start_server_handler start serve load_tls_identity get_certificates_dir
    to_socket_address new_client
runs = refl

main_refuses_example :
    (d : ComponentDescriptor) × (service : AuthService Controller) × ((load Component.proxy
        system).0
      ≡ ok d)
    × ((reached demo).0 ≡ ok service)
    × (get_local_socket_address addresses {E = String} (get_connection_settings d) ≡ ok home)
    × ((load_tls_identity "server.crt" "server.key" system).0 ≡ ok ([], []))
    × ((request : CommandRequest)
        → execute_command uris nobody auth_client debug request running.client
          ≡ (err (status unauthenticated "Not authenticated"), running.client))
main_refuses_example =
    main_refuses uris addresses nobody debug tonic logging (some "host") reached system demo running
      running_server runs refl

-- A transport whose channels are the endpoints themselves.
abbrev direct : Transport Controller String String String
direct = record { tls_config = λ uri config. ok uri; connect = λ endpoint s. (ok endpoint, s) }

direct_opens :
    open_channel direct "https://10.0.0.2:5002" [] "proxy-one" demo
    ≡ (ok "https://10.0.0.2:5002", demo)
unfolding open_channel
direct_opens = refl

abbrev no_proxies : String → Proxy Controller
no_proxies channel = nobody.get_proxy channel [] ""

abbrev no_landers : String → Lander Controller
no_landers channel = nobody.get_lander channel [] ""

port_read : parse_u16 "5001" ≡ some 5001
unfolding parse_u16
port_read = refl

-- Every variable is set to the text of a port.
controller_channel_lem_example :
    controller_channel direct uris system demo ≡ (ok "https://5001:5002", demo)
controller_channel_lem_example =
    controller_channel_lem direct uris system "5001" "5001" "5001" "5001" "/" 5001 demo refl refl
      port_read refl refl refl (λ path e. cc e)
