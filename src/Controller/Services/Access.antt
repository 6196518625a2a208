-- ===== src/Controller/Services/Access.antt =====
-- Requests whose access key is that of no session, to all the services of controller/src/services.
use fuzzy_chat.Prelude.{ℕ, String, Outcome, ◌≡◌, Status, none, err, arith, status, unauthenticated}
use fuzzy_chat.Prelude.Int.{ℤ}
use fuzzy_chat.Prelude.Dict
use fuzzy_chat.Crosscutting.Networking.{SocketAddr}
use fuzzy_chat.Controller.Routing.Strategy.{Choose}
use fuzzy_chat.Controller.Services.Auth.{ping, logout}
use fuzzy_chat.Controller.Services.Auth.Ping.{from}
use fuzzy_chat.Controller.Services.Info.{network_status}
use fuzzy_chat.Controller.Services.Routes.{initialize, route, redeem}
use fuzzy_chat.Controller.State.{Controller}
use fuzzy_chat.Controller.Services.Guards.Facts.{check_session-none}

-- The request is refused for its access key, and nothing changes.
abbrev pub Denied : {A : Type 0} → Controller → Outcome Status A × Controller → Type 0
Denied s result = result ≡ (err (status unauthenticated "Invalid access key"), s)

module _ (now : ℕ) (key : String) (s : Controller)
    (e : Dict.get s.session_manager.sessions key ≡ none) where
  pub ping-Denied : (t : ℤ) (ip : SocketAddr) → Denied s (ping now t (from ip key) s)
  unfolding ping
  ping-Denied t ip = ground (arith, check_session-none now key s e)

  pub logout-Denied : Denied s (logout now key s)
  unfolding logout
  logout-Denied = ground (arith, check_session-none now key s e)

  status-Denied : (version : String) → Denied s (network_status version now key s)
  unfolding network_status
  status-Denied version = ground (arith, check_session-none now key s e)

  initialize-Denied : (uuid recipient : String) → Denied s (initialize now uuid key recipient s)
  unfolding initialize
  initialize-Denied uuid recipient = ground (arith, check_session-none now key s e)

  route-Denied :
      (uuid : String) (choose : Choose) (id : String) → Denied s (route now uuid choose key id s)
  unfolding route
  route-Denied uuid choose id = ground (arith, check_session-none now key s e)

  redeem-Denied : (id nonce : String) → Denied s (redeem now key id nonce s)
  unfolding redeem
  redeem-Denied id nonce = ground (arith, check_session-none now key s e)

-- If no session stands under its access key, every request but a login (a ping: from a known
-- address) is refused as unauthenticated, and changes nothing.
pub access-Denied :
    (now : ℕ) (key : String) (s : Controller)
    → Dict.get s.session_manager.sessions key ≡ none
    → ((t : ℤ) (ip : SocketAddr) → Denied s (ping now t (from ip key) s))
      × Denied s (logout now key s)
      × ((version : String) → Denied s (network_status version now key s))
      × ((uuid recipient : String) → Denied s (initialize now uuid key recipient s))
      × ((uuid : String) (choose : Choose) (id : String)
          → Denied s (route now uuid choose key id s))
      × ((id nonce : String) → Denied s (redeem now key id nonce s))
access-Denied now key s e = (
  ping-Denied now key s e,
  logout-Denied now key s e,
  status-Denied now key s e,
  initialize-Denied now key s e,
  route-Denied now key s e,
  redeem-Denied now key s e,
)
