-- ===== src/Gateway/AuthService.antt =====
-- `AuthClient` over a channel that reaches the authentication service of a controller, from an
-- address. The text of a status, by `tonic`, is an argument.
pub mod Lifecycle
use fuzzy_chat.Prelude.{ℕ, String, Status, some}
use fuzzy_chat.Prelude.Int.{ℤ}
use fuzzy_chat.Crosscutting.Networking.{SocketAddr}
use fuzzy_chat.Controller.State.{Controller}
use fuzzy_chat.Controller.Services.Auth
use fuzzy_chat.Gateway.RouteClient.{reaches}
use fuzzy_chat.Gateway.Session.{AuthService}

unfoldable pub auth_service :
    ℕ → String → ℤ → SocketAddr → (Status → String) → String → AuthService Controller
unfolding Auth.login Auth.logout Auth.ping
auth_service now uuid timestamp ip to_string lost = record {
  login = λ request.
      reaches to_string lost
        (Auth.login now uuid (record { remote_addr = some ip; inner = request }));
  logout = λ access_key. reaches to_string lost (Auth.logout now access_key);
  ping = λ access_key.
      reaches to_string lost
        (Auth.ping now timestamp (record { remote_addr = some ip; inner = access_key }));
}
