-- ===== src/Proxy/Server.antt =====
-- `ProxyGrpcServer` of proxy/src/services/mod.rs, and the start of proxy/src/main.rs.
pub mod Starting
use fuzzy_chat.Prelude.{
  String, Option, none, some, Exec, Outcome, ok, err, panic, Status, pure, lift, ◌>>=◌, ◌>>◌,
}
use fuzzy_chat.Controller.Models.{StatusResponse}
use fuzzy_chat.Crosscutting.Component.{Component, ComponentDescriptor, get_connection_settings}
use fuzzy_chat.Crosscutting.Endpoint.{AddrText, UriText, get_local_socket_address}
use fuzzy_chat.Crosscutting.Networking.{SocketAddr}
use fuzzy_chat.Crosscutting.Serving.{Tonic, Serving, serve}
use fuzzy_chat.Crosscutting.Settings.{System, get_default_log_file_name, load}
use fuzzy_chat.Crosscutting.Settings.Logger.{Logging, setup_logger}
use fuzzy_chat.Gateway.Clients.{CommandRequest, Factories}
use fuzzy_chat.Gateway.Session.{Authenticator, AuthClient, AuthService, new_client, no_session}
use fuzzy_chat.Gateway.Session as Gateway
use fuzzy_chat.Proxy.Service.{execute_command}

-- `ProxyServiceServer`
abbrev pub ProxyService : Type 0 → Type 0
ProxyService S = CommandRequest → Exec S Status (Option String)

pub record ProxyGrpcServer (S : Type 0) : Type 0 where
  pub authenticator : Authenticator S
  pub socket_address : SocketAddr

module _ {S Uri : Type 0} (uris : UriText Uri) (factories : Factories S Uri)
    (debug : StatusResponse → String) (tonic : Tonic) (system : System) where
  -- `ProxyGrpcServer::start`
  unfoldable pub start : ProxyGrpcServer S → Outcome String (Serving (ProxyService S))
  unfolding serve execute_command
  start s =
      serve tonic system s.socket_address (execute_command uris factories s.authenticator debug)

  -- What the task comes to: an error is only logged, and a panic ends the task alone.
  unfoldable pub start_server_handler :
      SocketAddr → Authenticator S → Option (Serving (ProxyService S))
  unfolding start
  start_server_handler socket_address authenticator =
      elim (start (record { authenticator = authenticator; socket_address = socket_address })) [
        | ok server ↦ some server
        | _ ↦ none
      ]

-- What `main` of proxy/src/main.rs has started when it waits for the signal: the client that the
-- authentication task and the server share, and the server.
pub record Running (S : Type 0) : Type 0 where
  pub client : AuthClient S
  pub server : Option (Serving (ProxyService (AuthClient S)))

-- `hostname` is that of the machine, `connect` the opening of the channel to the controller.
unfoldable pub main :
    {S Uri Level : Type 0}
    → UriText Uri
    → AddrText
    → Factories (AuthClient S) Uri
    → (StatusResponse → String)
    → Tonic
    → Logging Level
    → Option String
    → Exec S String (AuthService S)
    → Authenticator (AuthClient S)
    → System
    → S
    → Outcome String (Running S)
unfolding get_default_log_file_name setup_logger load new_client Gateway.initialize
    get_local_socket_address get_connection_settings start_server_handler
main uris addresses factories debug tonic logging hostname connect authenticator system world =
    ((do
      lift (setup_logger logging (get_default_log_file_name hostname "proxy") system).0
      descriptor ← lift (load Component.proxy system).0
      client ← λ u.
          let r = Gateway.initialize connect (new_client no_session descriptor world) in
          (elim r.0 [ ok _ ↦ ok r.1 | err e ↦ err e | panic ↦ panic ], u)
      socket_address ←
          lift (get_local_socket_address addresses (get_connection_settings descriptor))
      pure (record {
        client = client;
        server =
            start_server_handler uris factories debug tonic system socket_address authenticator;
      }))
      tt).0
