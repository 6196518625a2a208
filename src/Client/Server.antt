-- ===== src/Client/Server.antt =====
-- `ClientGrpcServer` of client/src/services/mod.rs, and the start of client/src/main.rs.
use fuzzy_chat.Prelude.{
  String, Option, none, some, Exec, Outcome, ok, err, panic, Status, pure, lift, ◌>>=◌, ◌>>◌, ℕ,
  List,
}
use fuzzy_chat.Crosscutting.Component.{Component, get_connection_settings}
use fuzzy_chat.Crosscutting.Endpoint.{AddrText, get_local_socket_address}
use fuzzy_chat.Crosscutting.Networking.{SocketAddr}
use fuzzy_chat.Crosscutting.Serving.{Tonic, Serving, serve}
use fuzzy_chat.Crosscutting.Settings.{System, get_default_log_file_name, load}
use fuzzy_chat.Crosscutting.Settings.Logger.{Logging, setup_logger}
use fuzzy_chat.Client.Landing.{Landing, TextRequest, receive}
use fuzzy_chat.Gateway.Clients.{Router}
use fuzzy_chat.Gateway.Session.{AuthClient, AuthService, new_client, no_session}
use fuzzy_chat.Gateway.Session as Gateway

-- `LandingServiceServer` over a `LandingServiceImpl`: what it does with an instant and a request, and
-- the sender of the channel that its messages go to.
pub record LandingService (Sender S : Type 0) : Type 0 where
  pub tx : Sender
  pub receive : ℕ → TextRequest → Exec (Landing S) Status Unit

pub record ClientGrpcServer (Sender : Type 0) : Type 0 where
  pub socket_address : SocketAddr
  pub tx : Sender

module _ {Sender S : Type 0} (router : Router S) (from_utf8_lossy : List ℕ → String) (tonic : Tonic)
    (system : System) where
  -- `ClientGrpcServer::start`
  unfoldable pub start :
      ClientGrpcServer Sender → Outcome String (Serving (LandingService Sender S))
  unfolding serve receive
  start s =
      serve tonic system s.socket_address
        (record { tx = s.tx; receive = receive router from_utf8_lossy })

  -- What the task comes to: an error is only logged, and a panic ends the task alone.
  unfoldable pub start_server_handler :
      SocketAddr → Sender → Option (Serving (LandingService Sender S))
  unfolding start
  start_server_handler socket_address tx =
      elim (start (record { socket_address = socket_address; tx = tx })) [
        | ok server ↦ some server
        | _ ↦ none
      ]

-- What `main` of client/src/main.rs has started when it waits for the signal: the server, and the
-- client whose session the command loop reads.
pub record Running (Sender S : Type 0) : Type 0 where
  pub client : AuthClient S
  pub server : Option (Serving (LandingService Sender S))

-- The task of the server is spawned before the channel to the controller is opened, and shares nothing
-- with that.
unfoldable pub main :
    {Sender S Level : Type 0}
    → AddrText
    → Sender
    → (List ℕ → String)
    → Tonic
    → Logging Level
    → Option String
    → Exec S String (AuthService S)
    → Router S
    → System
    → S
    → Outcome String (Running Sender S)
unfolding get_default_log_file_name setup_logger load new_client Gateway.initialize
    get_local_socket_address get_connection_settings start_server_handler
main addresses tx from_utf8_lossy tonic logging hostname connect router system world =
    ((do
      lift (setup_logger logging (get_default_log_file_name hostname "client") system).0
      descriptor ← lift (load Component.client system).0
      socket_address ←
          lift (get_local_socket_address addresses (get_connection_settings descriptor))
      client ← λ u.
          let r = Gateway.initialize connect (new_client no_session descriptor world) in
          (elim r.0 [ ok _ ↦ ok r.1 | err e ↦ err e | panic ↦ panic ], u)
      pure (record {
        client = client;
        server = start_server_handler router from_utf8_lossy tonic system socket_address tx;
      }))
      tt).0
