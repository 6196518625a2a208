-- ===== src/Controller/Runs/Safety.antt =====
-- What is safe in every state of a controller's life.
use fuzzy_chat.Prelude.{
  ℕ, ◌^◌, ◌<◌, ◌≤◌, String, Bool, none, some, Outcome, Status, ok, panic, ◌≡◌, refl, ap, inl, inr,
  arith, Option-cases, is_err, Outcome-cases,
}
use mathlib.Core.Path.{subst}
use fuzzy_chat.Prelude.Int.{ℤ}
use fuzzy_chat.Prelude.Dict
use fuzzy_chat.Prelude.Dict.{len-Each}
use fuzzy_chat.Crosscutting.Component.{
  ComponentDescriptor, from_i32, get_connection_settings, get_credentials,
}
use fuzzy_chat.Crosscutting.Endpoint.{AddrText}
use fuzzy_chat.Controller.Models.{
  LoginRequest, RouteResponse, SessionInfo, StatusResponse, to_connection_settings,
}
use fuzzy_chat.Controller.Routing
use fuzzy_chat.Controller.Routing.Strategy.{Choose}
use fuzzy_chat.Controller.Runs.{
  Event, logs_in, pings, logs_out, asks_status, initializes, asks_route, redeems, announces, seeds,
  sweeps_sessions, sweeps_routes, IsAllowed, after, Reachable, started, next,
}
use fuzzy_chat.Controller.Runs.Sound.{IsKnown, Sound, blank-Sound}
use fuzzy_chat.Controller.Runs.Conversations.{kill_expired-RoutesSound, routes-Sound}
use fuzzy_chat.Controller.Runs.Handlers.{login-Sound, ping-Sound, logout-Sound, status-Sound}
use fuzzy_chat.Controller.Runs.RouteHandlers.{
  initialize-Sound, route-Sound, redeem-Sound, announce-Sound, seed-Sound, strategy_random,
  IsStored-port,
}
use fuzzy_chat.Controller.Runs.Sessions.{Shrinks-SessionsSound, sessions-Sound, touch-Sound}
use fuzzy_chat.Controller.Services.Auth.{Request, login, ping, logout}
use fuzzy_chat.Controller.Services.Guards.Facts.{touch, check_session-none, check_session-some}
use fuzzy_chat.Controller.Services.Info.{network_status, to_u32}
use fuzzy_chat.Controller.Services.Routes.{initialize, route, redeem, handle_route}
use fuzzy_chat.Controller.Services.Routes.Cases.{
  IsRefused, known-cases, route_no_session, route_no_conversation,
}
use fuzzy_chat.Controller.Services.Routes.Redeeming.{redeem_tells}
use fuzzy_chat.Controller.Session
use fuzzy_chat.Controller.Services.Total.{Answers, never_panics, login_panics}
use fuzzy_chat.Controller.State.{Controller}
use fuzzy_chat.Controller.Storage.Routes
use fuzzy_chat.Controller.Storage.Sessions
use fuzzy_chat.Controller.Storage.Sessions.Shrinks.{kill_expired-Shrinks}

abbrev port_of : Outcome Status RouteResponse → ℕ
port_of (ok r) = r.port_number
port_of _ = 0

refused-port :
    (x : Outcome Status RouteResponse × Controller) (t : Controller)
    → IsRefused x t
    → port_of x.0 < 2 ^ 16
refused-port x t h = elim (Outcome-cases x.0) [
  | inl (r, e) ↦ cc (h.0, ap (λ (y : Outcome Status RouteResponse). is_err y) e)
  | inr (inl (r, e)) ↦ rw e (omega arith)
  | inr (inr e) ↦ rw e (omega arith)
]

handle_route-port :
    (now : ℕ) (uuid id : String) (q : SessionInfo) (last : Bool) (s : Controller)
    → (to_connection_settings q).port < 2 ^ 16
    → port_of (handle_route now uuid id q last s).0 < 2 ^ 16
unfolding handle_route to_connection_settings
handle_route-port now uuid id q last s h =
    elim (Outcome-cases (Routing.store_route now uuid id (to_connection_settings q) last s).0) [
      | inr (inl (r, e)) ↦ ground (arith, e, h)
      | inr (inr e) ↦ ground (arith, e, h)
      | inl (none, e) ↦ ground (arith, e, h)
      | inl (some n, e) ↦ ground (arith, e, h)
    ]

module _ (addresses : AddrText) (hub : ComponentDescriptor)
    (port : (get_connection_settings hub).port < 2 ^ 16) where
  abbrev own : String
  own = (get_credentials hub).uid

  -- Every event that may happen keeps the state sound.
  after-Sound :
      (e : Event) (s : Controller)
      → IsAllowed e s
      → Sound own s
      → Sound own (after addresses hub e s)
  unfolding after
  after-Sound (logs_in now uuid request) s a h = login-Sound now uuid request a h
  after-Sound (pings now t r) s a h = ping-Sound now r.inner s h t r refl
  after-Sound (logs_out now key) s a h = logout-Sound now key s h
  after-Sound (asks_status now version key) s a h = status-Sound now key s h version
  after-Sound (initializes now uuid key recipient) s a h =
      initialize-Sound now key s h uuid recipient
  after-Sound (asks_route now uuid choose key id) s a h = route-Sound now key s h uuid choose id
  after-Sound (redeems now key id nonce) s a h = redeem-Sound now key s h id nonce
  after-Sound (announces now key) s a h = announce-Sound addresses hub now key s port a h
  after-Sound (seeds system records_of) s a h = seed-Sound own system records_of s h
  after-Sound (sweeps_sessions now) s a h =
      sessions-Sound h
        (Shrinks-SessionsSound (kill_expired-Shrinks now s.session_manager) h.sessions)
  after-Sound (sweeps_routes now) s a h = routes-Sound h (kill_expired-RoutesSound now h.routes)

  -- Every state that logins with new access keys, requests, seedings, announcements and rounds lead
  -- to, in any order, from a controller without anything stored is sound.
  pub Reachable-Sound : (s : Controller) → Reachable addresses hub s → Sound own s
  Reachable-Sound _ started = blank-Sound own
  Reachable-Sound _ (next e a r) = after-Sound e _ a (Reachable-Sound _ r)

  -- In such a state no ping, logout, question for the status, beginning of a conversation, request for
  -- a route or redemption panics, with any arguments, and a login panics only where it names a component
  -- type that there is none of.
  pub Reachable-Answers :
      (now : ℕ) (key : String) (s : Controller)
      → Reachable addresses hub s
      → ((uuid : String) (r : Request LoginRequest)
          → (login now uuid r s).0 ≡ panic
          → from_i32 {E = Status} r.inner.component_type ≡ panic)
        × ((t : ℤ) (r : Request String) → r.inner ≡ key → Answers (ping now t r s))
        × Answers (logout now key s)
        × ((version : String) → Answers (network_status version now key s))
        × ((uuid recipient : String) → Answers (initialize now uuid key recipient s))
        × ((uuid : String) (choose : Choose) (id : String)
            → Answers (route now uuid choose key id s))
        × ((id nonce : String) → Answers (redeem now key id nonce s))
  Reachable-Answers now key s r =
      let h = Reachable-Sound s r in
      let (pinged, left, asked, begun, routed, redeemed) =
        never_panics now key s (strategy_random now key s h) in
      (
        λ uuid request. login_panics now uuid request s,
        pinged,
        left,
        asked,
        begun,
        routed,
        redeemed,
      )

  -- In such a state a redemption that tells a sender tells the uid of a member, or the controller's own.
  pub redeem-IsKnown :
      (now : ℕ) (key id nonce u : String) (s : Controller)
      → Reachable addresses hub s
      → (redeem now key id nonce s).0 ≡ ok (record { source_info = some u })
      → IsKnown own s.member_manager u
  redeem-IsKnown now key id nonce u s r e =
      let (v, f, p) = redeem_tells now key id nonce u s e in
      subst (IsKnown own s.member_manager) p ((Reachable-Sound s r).routes.talks id v f).sent

  -- In such a state the network status counts one controller at most.
  pub status_lone :
      (now : ℕ) (version key : String) (s : Controller) (r : StatusResponse)
      → Reachable addresses hub s
      → (network_status version now key s).0 ≡ ok r
      → r.connected_controllers ≤ 1
  unfolding network_status Session.count_clients Session.count_proxies Session.count_controllers
      Sessions.count_controllers to_u32
  status_lone now version key s r h e =
      elim (Option-cases (Dict.get s.session_manager.sessions key)) [
        | inl f ↦ ground (arith, check_session-none now key s f, e)
        | inr (w, f) ↦ ground (
          arith,
          check_session-some now key s w f,
          len-Each s.session_manager.controllers own (Reachable-Sound s h).sessions.lone,
          e,
        )
      ]

  -- In such a state the port that a request for a route is answered with fits 16 bits.
  pub route-port :
      (now : ℕ) (uuid : String) (choose : Choose) (key id : String) (s : Controller)
      (r : RouteResponse)
      → Reachable addresses hub s
      → (route now uuid choose key id s).0 ≡ ok r
      → r.port_number < 2 ^ 16
  route-port now uuid choose key id s r reach e =
      let h = Reachable-Sound s reach in
      let x = route now uuid choose key id s in
      let small : port_of x.0 < 2 ^ 16 =
        elim (Option-cases (Dict.get s.session_manager.sessions key)) [
          | inl f ↦ refused-port x s (route_no_session now uuid choose key id s f)
          | inr (w, f) ↦
              let seen = touch now key w s in
              elim (Option-cases (Routes.get_conversation id s.route_manager)) [
                | inl g ↦ refused-port x seen (route_no_conversation now uuid choose key id s w f g)
                | inr (c, g) ↦
                    elim (known-cases now uuid choose key id s w f c g
                      (strategy_random now key s h id c g)) [
                        | inl n ↦ refused-port x seen n
                        | inr (q, last, i, p) ↦ rw p (
                            handle_route-port now uuid id q last seen
                              (IsStored-port own q seen (touch-Sound now key w f h) i))
                      ]
              ]
        ] in
      rw e at small
