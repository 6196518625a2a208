-- ===== src/Controller/Services/Auth/Ping.antt =====
-- What `ping` and `logout` of auth_service.rs do.
use fuzzy_chat.Prelude.{
  ℕ, String, if◌then◌else◌, ◌≡◌, some, arith, ok, err, status, unauthenticated, none, Option-cases,
  inl, inr, ◌≢◌, panic,
}
use fuzzy_chat.Prelude.Int.{ℤ}
use fuzzy_chat.Prelude.Dict
use fuzzy_chat.Prelude.Dict.{get-remove_self}
use fuzzy_chat.Crosscutting.Networking.{SocketAddr, same_addr}
use fuzzy_chat.Controller.State.{Controller}
use fuzzy_chat.Controller.Storage.Expiration.{renew}
use fuzzy_chat.Controller.Storage.Sessions.Shrinks.{Wrapped}
use fuzzy_chat.Controller.Storage.Sessions
use fuzzy_chat.Controller.Session
use fuzzy_chat.Controller.Services.Guards.Facts.{
  touch, check_session-some, get_session-some, get-touch, check_session-none,
}
use fuzzy_chat.Controller.Services.Auth.{Request, ping, ping_amid, logout}

abbrev pub from : SocketAddr → String → Request String
from ip key = record { remote_addr = some ip; inner = key }

-- A ping with the access key of a session, from any address: it is answered when the address is the
-- one of the login, refused otherwise, and the session is renewed in both cases.
pub ping_session :
    (now : ℕ) (t : ℤ) (ip : SocketAddr) (key : String) (w : Wrapped) (s : Controller)
    → Dict.get s.session_manager.sessions key ≡ some w
    → ping now t (from ip key) s ≡ (
      if same_addr w.value.client_ip ip
          then ok (record { status = "PONG"; timestamp = t })
          else err (status unauthenticated "Invalid connection"),
      touch now key (renew now w) (touch now key w s),
    )
unfolding ping
ping_session now t ip key w s e = ground (
  arith,
  check_session-some now key s w e,
  get_session-some now key (touch now key w s) (renew now w) (get-touch now key s w),
)

-- A logout with the access key of a session succeeds, and afterwards no session stands under that key
-- and the index of clients has no entry for its uid.
pub logout_revokes :
    (now : ℕ) (key : String) (w : Wrapped) (s : Controller)
    → Dict.get s.session_manager.sessions key ≡ some w
    → ((logout now key s).0 ≡ ok tt)
      × (Dict.get (logout now key s).1.session_manager.sessions key ≡ none)
      × (Dict.get (logout now key s).1.session_manager.clients w.value.uid ≡ none)
unfolding logout Session.remove_session Sessions.remove_session
logout_revokes now key w s e = ground (
  arith,
  check_session-some now key s w e,
  get-touch now key s w,
  get-remove_self (touch now key w s).session_manager.sessions key,
  get-remove_self s.session_manager.clients w.value.uid,
)

-- A logout, accepted or refused, leaves the index of proxies, and so the number of proxies, as it was.
pub logout-proxies :
    (now : ℕ) (key : String) (s : Controller)
    → (logout now key s).1.session_manager.proxies ≡ s.session_manager.proxies
unfolding logout Session.remove_session Sessions.remove_session
logout-proxies now key s = elim (Option-cases (Dict.get s.session_manager.sessions key)) [
  | inl e ↦ ground (arith, check_session-none now key s e)
  | inr (w, e) ↦ ground (arith, check_session-some now key s w e, get-touch now key s w)
]

-- A ping with the access key of a session, from a known address, does not panic where nothing happens
-- between its two look-ups of the session; but it panics where a logout with that access key is handled
-- between them.
pub ping-race :
    (now later : ℕ) (t : ℤ) (ip : SocketAddr) (key : String) (w : Wrapped) (s : Controller)
    → Dict.get s.session_manager.sessions key ≡ some w
    → ((ping now t (from ip key) s).0 ≢ panic)
      × ((ping_amid (λ q. (logout later key q).1) now t (from ip key) s).0 ≡ panic)
unfolding ping_amid Session.get_session Sessions.get_session
ping-race now later t ip key w s e = (
  λ p. ground (arith, ping_session now t ip key w s e, p),
  ground (
    arith,
    check_session-some now key s w e,
    logout_revokes later key (renew now w) (touch now key w s) (get-touch now key s w),
  ),
)
