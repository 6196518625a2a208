-- ===== src/Controller/Runs/Handlers.antt =====
-- The handlers of auth_service.rs and info_service.rs keep the state sound.
use fuzzy_chat.Prelude.{
  ℕ, String, false, some, Outcome, Status, ◌≡◌, refl, sym, ap, inl, inr, arith, Option-cases,
}
use mathlib.Core.Path.{subst}
use fuzzy_chat.Prelude.Int.{ℤ}
use fuzzy_chat.Prelude.Dict
use fuzzy_chat.Crosscutting.Component.{Component, to_u8}
use fuzzy_chat.Crosscutting.Networking.{SocketAddr}
use fuzzy_chat.Controller.Models.{LoginRequest, LoginResponse}
use fuzzy_chat.Controller.Runs.Sound.{Sound}
use fuzzy_chat.Controller.Runs.Sessions.{
  Shrinks-SessionsSound, store-SessionsSound, sessions-Sound, touch-Sound,
}
use fuzzy_chat.Controller.Session
use fuzzy_chat.Controller.Services.Auth.{
  Request, login, ping, logout, login_settings, is_controller,
}
use fuzzy_chat.Controller.Services.Auth.Login.{MayLogin, login_cases, logged_in}
use fuzzy_chat.Controller.Services.Guards.Facts.{
  touch, get-touch, check_session-none, check_session-some,
}
use fuzzy_chat.Controller.Services.Info.{network_status}
use fuzzy_chat.Controller.Services.KeepAlive.{ping_state}
use fuzzy_chat.Controller.State.{Controller}
use fuzzy_chat.Controller.Storage.Expiration.{renew}
use fuzzy_chat.Controller.Storage.Sessions.Invariant.{Fresh}
use fuzzy_chat.Controller.Storage.Sessions.Shrinks.{Wrapped, remove_session-Shrinks}

no_controller : (c : Component) → is_controller c ≡ false → ¬ (to_u8 c ≡ to_u8 Component.controller)
unfolding to_u8
no_controller Component.client h e = cc
no_controller Component.proxy h e = cc
no_controller Component.controller h e = cc

module _ {own : String} {s : Controller} where
  pub unchanged : {t : Controller} → t ≡ s → Sound own s → Sound own t
  unchanged e h = subst (Sound own) (sym e) h

  -- A login stores the session of a member, which is no controller.
  logged_in-Sound :
      (now : ℕ) (uuid : String) (r : LoginRequest) (c : Component) (ip : SocketAddr)
      → MayLogin r c s
      → Fresh uuid s.session_manager
      → Sound own s
      → Sound own (logged_in now uuid r c ip s)
  logged_in-Sound now uuid r c ip m fresh h = sessions-Sound h (
      store-SessionsSound now c (Session.session_info uuid r.uid c ip (login_settings r)) refl fresh
        (record {
          port = omega arith;
          component = c;
          typed = refl;
          known = inr (m.member, m.found);
          controls = λ e. absurd (no_controller c m.no_controller e);
        })
        h.sessions)

  pub login-Sound :
      (now : ℕ) (uuid : String) (request : Request LoginRequest)
      → Fresh uuid s.session_manager
      → Sound own s
      → Sound own (login now uuid request s).1
  login-Sound now uuid request fresh h = elim (login_cases now uuid request s) [
    | inl r ↦ unchanged r.1 h
    | inr (ip, c, _, m, e) ↦
        subst (Sound own) (sym (ap (λ (x : Outcome Status LoginResponse × Controller). x.1) e))
          (logged_in-Sound now uuid request.inner c ip m fresh h)
  ]

module _ {own : String} (now : ℕ) (key : String) (s : Controller) (h : Sound own s) where
  pub twice :
      (w : Wrapped)
      → Dict.get s.session_manager.sessions key ≡ some w
      → Sound own (touch now key (renew now w) (touch now key w s))
  twice w e = touch-Sound now key (renew now w) (get-touch now key s w) (touch-Sound now key w e h)

  pub ping-Sound : (t : ℤ) (r : Request String) → r.inner ≡ key → Sound own (ping now t r s).1
  unfolding ping
  ping-Sound t r i = elim (Option-cases r.remote_addr) [
    | inl a ↦ unchanged (ground (arith, a)) h
    | inr (ip, a) ↦ elim (Option-cases (Dict.get s.session_manager.sessions key)) [
      | inl f ↦ unchanged (ground (arith, a, i, check_session-none now key s f)) h
      | inr (w, f) ↦ unchanged (ground (arith, a, i, ping_state now t ip key w s f)) (twice w f)
    ]
  ]

  pub logout-Sound : Sound own (logout now key s).1
  unfolding logout Session.remove_session
  logout-Sound = elim (Option-cases (Dict.get s.session_manager.sessions key)) [
    | inl f ↦ unchanged (ground (arith, check_session-none now key s f)) h
    | inr (w, f) ↦
        let t = touch-Sound now key w f h in
        unchanged (ground (arith, check_session-some now key s w f)) (
          sessions-Sound t (
            Shrinks-SessionsSound (remove_session-Shrinks key (touch now key w s).session_manager)
              t.sessions))
  ]

  pub status-Sound : (version : String) → Sound own (network_status version now key s).1
  unfolding network_status Session.count_clients Session.count_proxies Session.count_controllers
  status-Sound version = elim (Option-cases (Dict.get s.session_manager.sessions key)) [
    | inl f ↦ unchanged (ground (arith, check_session-none now key s f)) h
    | inr (w, f) ↦
        unchanged (ground (arith, check_session-some now key s w f)) (touch-Sound now key w f h)
  ]
