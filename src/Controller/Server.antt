-- ===== src/Controller/Server.antt =====
-- `start_server_handler` of controller/src/services/mod.rs: the services that a controller serves.
pub mod Main
use fuzzy_chat.Prelude.{ℕ, String, Option, none, some, Outcome, ok, err, panic}
use fuzzy_chat.Prelude.Int.{ℤ}
use fuzzy_chat.Crosscutting.Component.{ComponentDescriptor}
use fuzzy_chat.Crosscutting.Endpoint.{AddrText, get_local_socket_address}
use fuzzy_chat.Crosscutting.Serving.{Tonic, Serving, serve}
use fuzzy_chat.Crosscutting.Settings.{System}
use fuzzy_chat.Controller.Models.{
  LoginRequest, LoginResponse, PingResponse, RedeemResponse, RouteResponse, StatusResponse,
}
use fuzzy_chat.Controller.Routing.Strategy.{Choose}
use fuzzy_chat.Controller.Services.Auth
use fuzzy_chat.Controller.Services.Auth.{Request}
use fuzzy_chat.Controller.Services.Info.{network_status}
use fuzzy_chat.Controller.Services.Routes
use fuzzy_chat.Controller.State.{Handler}

-- `AuthServiceServer`, `RouteServiceServer` and `InfoServiceServer`, over the same managers.
pub record Services : Type 0 where
  pub login : ℕ → String → Request LoginRequest → Handler LoginResponse
  pub ping : ℕ → ℤ → Request String → Handler PingResponse
  pub logout : ℕ → String → Handler Unit
  pub initialize : ℕ → String → String → String → Handler String
  pub route : ℕ → String → Choose → String → String → Handler RouteResponse
  pub redeem : ℕ → String → String → String → Handler RedeemResponse
  pub status : ℕ → String → Handler StatusResponse

unfoldable pub services : String → Services
unfolding Auth.login Auth.ping Auth.logout Routes.initialize Routes.route Routes.redeem
    network_status
services version = record {
  login = Auth.login;
  ping = Auth.ping;
  logout = Auth.logout;
  initialize = Routes.initialize;
  route = Routes.route;
  redeem = Routes.redeem;
  status = network_status version;
}

-- What the task comes to: only the descriptor of a controller is served. An error of the server is
-- dropped, and a panic ends the task alone.
unfoldable pub start_server_handler :
    AddrText → Tonic → System → ComponentDescriptor → Option (Serving Services)
unfolding get_local_socket_address serve services
start_server_handler addresses tonic system (ComponentDescriptor.controller c settings version) =
    elim (get_local_socket_address addresses {E = String} settings) [
      | ok address ↦ elim (serve tonic system address (services version)) [
        | ok server ↦ some server
        | _ ↦ none
      ]
      | _ ↦ none
    ]
start_server_handler addresses tonic system _ = none
