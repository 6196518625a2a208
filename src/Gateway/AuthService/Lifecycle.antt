-- ===== src/Gateway/AuthService/Lifecycle.antt =====
-- A client's login, ping and logout at a controller.
use fuzzy_chat.Prelude.{ℕ, String, ◌≡◌, none, some, ok, is_ok, false, arith, Status}
use fuzzy_chat.Prelude.Int.{ℤ}
use fuzzy_chat.Prelude.Dict
use fuzzy_chat.Prelude.Dict.{get-insert_self}
use fuzzy_chat.Crosscutting.Component.{Component}
use fuzzy_chat.Crosscutting.Networking.{SocketAddr, same_addr, same_addr_iff}
use fuzzy_chat.Controller.State.{Controller}
use fuzzy_chat.Controller.Session.{session_info}
use fuzzy_chat.Controller.Storage.Expiration.{wrap}
use fuzzy_chat.Controller.Storage.Times.{sessions_expiration_time}
use fuzzy_chat.Controller.Storage.Sessions.{store, index}
use fuzzy_chat.Controller.Storage.Sessions.Shrinks.{Wrapped}
use fuzzy_chat.Controller.Models.{LoginRequest}
use fuzzy_chat.Controller.Services.Access.{logout-Denied}
use fuzzy_chat.Controller.Services.Auth.{login_settings}
use fuzzy_chat.Controller.Services.Auth.Login.{MayLogin, login_accepts, logged_in}
use fuzzy_chat.Controller.Services.Auth.Ping.{ping_session, logout_revokes}
use fuzzy_chat.Gateway.Session.{
  AuthClient, no_session, login_request, set_session, login, logout, ping,
}
use fuzzy_chat.Gateway.AuthService.{auth_service}

session_stored :
    (now : ℕ) (uuid : String) (c : Component) (ip : SocketAddr) (r : LoginRequest) (s : Controller)
    → Dict.get (logged_in now uuid r c ip s).session_manager.sessions uuid
      ≡ some (wrap now (session_info uuid r.uid c ip (login_settings r)) sessions_expiration_time)
unfolding store index
session_stored now uuid Component.client ip r s = get-insert_self s.session_manager.sessions uuid _
session_stored now uuid Component.proxy ip r s = get-insert_self s.session_manager.sessions uuid _
session_stored now uuid Component.controller ip r s =
    get-insert_self s.session_manager.sessions uuid _

module _ (uuid : String) (t : ℤ) (ip : SocketAddr) (show : Status → String) (lost : String) where
  -- The client has a stub of the controller's service at that instant.
  abbrev pub At : ℕ → AuthClient Controller → AuthClient Controller
  At now c = record c { client = some (auth_service now uuid t ip show lost) }

  -- A client whose credentials are a member's logs in, and then has a session and the controller one
  -- under its access key.
  pub login_lem :
      (now : ℕ) (c : AuthClient Controller) (type : Component)
      → MayLogin (login_request c) type c.world
      → login (At now c) ≡ (
        ok tt,
        record (At now c) {
          session = record { access_key = some uuid; uid = some c.credentials.uid };
          world = logged_in now uuid (login_request c) type ip c.world;
        },
      )
  unfolding login set_session auth_service
  login_lem now c type h =
      ground (arith, login_accepts now uuid ip (login_request c) type c.world h)

  -- After a client over a controller, with the credentials of a member and the component type of
  -- a proxy or a client, has logged in, a ping from the same address is answered.
  pub ping-login :
      (now later : ℕ) (c : AuthClient Controller) (type : Component)
      → MayLogin (login_request c) type c.world
      → (ping (At later (login (At now c)).1)).0 ≡ ok ("PONG", t)
  unfolding ping auth_service same_addr
  ping-login now later c type h = rw (login_lem now c type h) (
      ground (
        arith,
        ping_session later t ip uuid
            (wrap now
              (session_info uuid (login_request c).uid type ip (login_settings (login_request c)))
              sessions_expiration_time)
            (logged_in now uuid (login_request c) type ip c.world)
            (session_stored now uuid type ip (login_request c) c.world),
        same_addr_iff ip ip,
      ))

  -- A logout of a client over a controller, with the access key of a session, succeeds and clears
  -- the client's session, and no session stands under the access key any more.
  pub logout_lem :
      (now : ℕ) (c : AuthClient Controller) (key : String) (w : Wrapped)
      → c.session.access_key ≡ some key
      → Dict.get c.world.session_manager.sessions key ≡ some w
      → ((logout (At now c)).0 ≡ ok tt)
        × ((logout (At now c)).1.session ≡ no_session)
        × (Dict.get (logout (At now c)).1.world.session_manager.sessions key ≡ none)
  unfolding logout auth_service
  logout_lem now c key w e f = ground (arith, logout_revokes now key w c.world f)

  -- Without a session at the controller, a logout fails and the client keeps what it had.
  pub logout_fails :
      (now : ℕ) (c : AuthClient Controller) (key : String)
      → c.session.access_key ≡ some key
      → Dict.get c.world.session_manager.sessions key ≡ none
      → (is_ok (logout (At now c)).0 ≡ false)
        × ((logout (At now c)).1.session ≡ c.session)
        × ((logout (At now c)).1.world ≡ c.world)
  unfolding logout auth_service
  logout_fails now c key e f = ground (arith, logout-Denied now key c.world f)
