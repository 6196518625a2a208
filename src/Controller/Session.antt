-- ===== src/Controller/Session.antt =====
-- controller/src/session.rs: `SessionManager`, as actions on the controller's state.
use fuzzy_chat.Prelude.{ℕ, String, Option, List, Status, pure, ok, ◌>>◌}
use fuzzy_chat.Crosscutting.Component.{Component, ConnectionSettings, to_u8}
use fuzzy_chat.Crosscutting.Networking.{SocketAddr}
use fuzzy_chat.Controller.Models.{SessionInfo}
use fuzzy_chat.Controller.State.{Handler}
use fuzzy_chat.Controller.Storage.Sessions

-- `access_key` is the new `Uuid` that `generate_access_key` makes.
abbrev pub session_info :
    String → String → Component → SocketAddr → ConnectionSettings → SessionInfo
session_info access_key uid component_type client_ip settings = record {
  access_key = access_key;
  uid = uid;
  client_ip = client_ip;
  on_port_number = settings.port;
  on_ip_address = settings.ip;
  component_type = to_u8 component_type;
  public_key = settings.certificate;
  domain_name = settings.domain_name;
}

unfoldable pub set_session :
    ℕ → String → String → Component → SocketAddr → ConnectionSettings → Handler String
set_session now access_key uid component_type client_ip settings = do
  λ s.
      let (r, q) =
        Sessions.set_session {E = Status} now
          (session_info access_key uid component_type client_ip settings) s.session_manager in
      (r, record s { session_manager = q })
  pure access_key

unfoldable pub get_session : ℕ → String → Handler (Option SessionInfo)
unfolding Sessions.get_session
get_session now key s =
    let (o, q) = Sessions.get_session now key s.session_manager in
    (ok o, record s { session_manager = q })

unfoldable pub remove_session : String → Handler Unit
remove_session key s =
    (ok tt, record s { session_manager = Sessions.remove_session key s.session_manager })

unfoldable pub get_proxies : String → Handler (Option (List SessionInfo))
get_proxies key s = (ok (Sessions.get_proxies key s.session_manager), s)

unfoldable pub get_client : String → Handler (Option SessionInfo)
get_client uid s = (ok (Sessions.get_client uid s.session_manager), s)

unfoldable pub count_proxies : Handler ℕ
count_proxies s = (ok (Sessions.count_proxies s.session_manager), s)

unfoldable pub count_clients : Handler ℕ
count_clients s = (ok (Sessions.count_clients s.session_manager), s)

unfoldable pub count_controllers : Handler ℕ
count_controllers s = (ok (Sessions.count_controllers s.session_manager), s)
