-- ===== src/Controller/Services/Total.antt =====
-- No request of a session panics.
use fuzzy_chat.Prelude.{
  ℕ, String, some, Outcome, panic, Status, ◌≡◌, ◌≢◌, arith, Option-cases, Outcome-cases, ◌==◌,
  Bool-cases, inl, inr, is_err, Bool, ap, sym, ◌∙◌,
}
use fuzzy_chat.Prelude.Int.{ℤ}
use fuzzy_chat.Prelude.Dict
use fuzzy_chat.Crosscutting.Networking.{same_addr}
use fuzzy_chat.Controller.Models.{
  Conversation, RouteResponse, LoginRequest, SessionInfo, to_connection_settings,
}
use fuzzy_chat.Controller.State.{Controller}
use fuzzy_chat.Controller.Routing
use fuzzy_chat.Controller.Routing.Strategy.{Choose, strategies, get_routing_id}
use fuzzy_chat.Controller.Session
use fuzzy_chat.Controller.Storage.Expiration.{renew}
use fuzzy_chat.Controller.Storage.Routes
use fuzzy_chat.Controller.Services.Auth.{login, ping, logout, is_controller, Request}
use fuzzy_chat.Controller.Services.Auth.Login.{credentials_cases, set_session_info}
use fuzzy_chat.Crosscutting.Component.{from_i32}
use fuzzy_chat.Controller.Services.Info.{network_status}
use fuzzy_chat.Controller.Services.Routes.{initialize, route, redeem, handle_route, finish}
use fuzzy_chat.Controller.Services.Routes.Cases.{
  IsRefused, known-cases, route_no_session, route_no_conversation,
}
use fuzzy_chat.Controller.Services.Guards.Facts.{
  touch, get-touch, check_session-none, check_session-some, get_session-some,
  check_conversation-none, check_conversation-some,
}

-- A panic is no answer.
abbrev pub Answers : {A : Type 0} → Outcome Status A × Controller → Type 0
Answers x = x.0 ≢ panic

module _ (now : ℕ) (key : String) (s : Controller) where
  ping-Answers : (t : ℤ) (r : Request String) → r.inner ≡ key → Answers (ping now t r s)
  unfolding ping
  ping-Answers t r e p = elim (Option-cases r.remote_addr) [
    | inl a ↦ ground (arith, a, p)
    | inr (ip, a) ↦ elim (Option-cases (Dict.get s.session_manager.sessions key)) [
      | inl f ↦ ground (arith, a, e, check_session-none now key s f, p)
      | inr (w, f) ↦ elim (Bool-cases (same_addr w.value.client_ip ip)) [
        | inl same ↦ ground (
          arith,
          a,
          e,
          check_session-some now key s w f,
          get_session-some now key (touch now key w s) (renew now w) (get-touch now key s w),
          same,
          p,
        )
        | inr other ↦ ground (
          arith,
          a,
          e,
          check_session-some now key s w f,
          get_session-some now key (touch now key w s) (renew now w) (get-touch now key s w),
          other,
          p,
        )
      ]
    ]
  ]

  logout-Answers : Answers (logout now key s)
  unfolding logout Session.remove_session
  logout-Answers p = elim (Option-cases (Dict.get s.session_manager.sessions key)) [
    | inl f ↦ ground (arith, check_session-none now key s f, p)
    | inr (w, f) ↦ ground (arith, check_session-some now key s w f, p)
  ]

  status-Answers : (version : String) → Answers (network_status version now key s)
  unfolding network_status Session.count_clients Session.count_proxies Session.count_controllers
  status-Answers version p = elim (Option-cases (Dict.get s.session_manager.sessions key)) [
    | inl f ↦ ground (arith, check_session-none now key s f, p)
    | inr (w, f) ↦ ground (arith, check_session-some now key s w f, p)
  ]

  initialize-Answers : (uuid recipient : String) → Answers (initialize now uuid key recipient s)
  unfolding initialize Routing.initialize Routing.set_conversation Routes.set_conversation
      strategies get_routing_id
  initialize-Answers uuid recipient p =
      elim (Option-cases (Dict.get s.session_manager.sessions key)) [
        | inl f ↦ ground (arith, check_session-none now key s f, p)
        | inr (w, f) ↦
            elim (Option-cases
              (Dict.get s.route_manager.conversations (Routing.without_dashes uuid))) [
                | inl g ↦ ground (
                  arith,
                  check_session-some now key s w f,
                  get_session-some now key (touch now key w s) (renew now w)
                      (get-touch now key s w),
                  g,
                  p,
                )
                | inr (c, g) ↦ ground (
                  arith,
                  check_session-some now key s w f,
                  get_session-some now key (touch now key w s) (renew now w)
                      (get-touch now key s w),
                  g,
                  p,
                )
              ]
      ]

  redeem-Answers : (id nonce : String) → Answers (redeem now key id nonce s)
  unfolding redeem Routing.redeem_route finish Routing.get_conversation Routing.finalize
      Routes.remove_route Routes.get_conversation
  redeem-Answers id nonce p = elim (Option-cases (Dict.get s.session_manager.sessions key)) [
    | inl f ↦ ground (arith, check_session-none now key s f, p)
    | inr (w, f) ↦ elim (Option-cases (Routes.get_conversation id s.route_manager)) [
      | inl g ↦ ground (
        arith,
        check_session-some now key s w f,
        check_conversation-none id (touch now key w s) g,
        p,
      )
      | inr (c, g) ↦ elim (Option-cases (Routes.get_route id nonce s.route_manager)) [
        | inl k ↦ ground (
          arith,
          check_session-some now key s w f,
          check_conversation-some id (touch now key w s) c g,
          k,
          p,
        )
        | inr (r, k) ↦ elim (Bool-cases r.end_route) [
          | inl last ↦ ground (
            arith,
            check_session-some now key s w f,
            check_conversation-some id (touch now key w s) c g,
            k,
            last,
            g,
            p,
          )
          | inr more ↦ ground (
            arith,
            check_session-some now key s w f,
            check_conversation-some id (touch now key w s) c g,
            k,
            more,
            p,
          )
        ]
      ]
    ]
  ]

handle_route-Answers :
    (now : ℕ) (uuid id : String) (q : SessionInfo) (last : Bool) (s : Controller)
    → Answers (handle_route now uuid id q last s)
unfolding handle_route Routing.store_route
handle_route-Answers now uuid id q last s p =
    elim (Option-cases
      (Routes.set_route now id (Routing.route_to (to_connection_settings q) uuid last)
        s.route_manager).0) [ inl e ↦ ground (arith, e, p) | inr (n, e) ↦ ground (arith, e, p) ]

refused-Answers :
    (x : Outcome Status RouteResponse × Controller) (t : Controller) → IsRefused x t → Answers x
refused-Answers x t h p = cc (h.0, ap (λ (r : Outcome Status RouteResponse). is_err r) p)

route-Answers :
    (now : ℕ) (uuid : String) (choose : Choose) (key id : String) (s : Controller)
    → ((c : Conversation) → Routes.get_conversation id s.route_manager ≡ some c → c.routing_id ≡ 1)
    → Answers (route now uuid choose key id s)
route-Answers now uuid choose key id s random =
    let x = route now uuid choose key id s in
    elim (Option-cases (Dict.get s.session_manager.sessions key)) [
      | inl f ↦ refused-Answers x s (route_no_session now uuid choose key id s f)
      | inr (w, f) ↦
          let seen = touch now key w s in
          elim (Option-cases (Routes.get_conversation id s.route_manager)) [
            | inl g ↦ refused-Answers x seen (route_no_conversation now uuid choose key id s w f g)
            | inr (c, g) ↦ elim (known-cases now uuid choose key id s w f c g (random c g)) [
              | inl r ↦ refused-Answers x seen r
              | inr (q, last, _, e) ↦
                  λ p. handle_route-Answers now uuid id q last seen (sym (ap (λ y. y.0) e) ∙ p)
            ]
          ]
    ]

-- A login panics only where it names a component type that there is none of.
pub login_panics :
    (now : ℕ) (uuid : String) (request : Request LoginRequest) (s : Controller)
    → (login now uuid request s).0 ≡ panic
    → from_i32 {E = Status} request.inner.component_type ≡ panic
unfolding login
login_panics now uuid request s p = elim (Option-cases request.remote_addr) [
  | inl e ↦ ground (arith, e, p)
  | inr (ip, e) ↦ elim (Bool-cases (request.inner.uid == "")) [
    | inl empty ↦ ground (arith, e, empty, p)
    | inr named ↦ elim (Outcome-cases (from_i32 {E = Status} request.inner.component_type)) [
      | inr (inl (x, bad)) ↦ ground (arith, e, named, bad, p)
      | inr (inr unknown) ↦ unknown
      | inl (c, known) ↦ elim (Bool-cases (is_controller c)) [
        | inl refused ↦ ground (arith, e, named, known, refused, p)
        | inr allowed ↦ elim (credentials_cases request.inner s) [
          | inr wrong ↦ ground (arith, e, named, known, allowed, wrong, p)
          | inl (_, right) ↦ ground (
            arith,
            e,
            named,
            known,
            allowed,
            right,
            set_session_info now uuid c ip request.inner s,
            p,
          )
        ]
      ]
    ]
  ]
]

-- A controller whose stored conversations all have the one strategy that there is answers every
-- request but a login: a ping, a logout, a question for the status, the beginning of a conversation,
-- a request for a route and a redemption give a value or a status, and never panic, whatever the
-- state and the arguments.
pub never_panics :
    (now : ℕ) (key : String) (s : Controller)
    → ((id : String) (c : Conversation)
        → Routes.get_conversation id s.route_manager ≡ some c
        → c.routing_id ≡ 1)
    → ((t : ℤ) (r : Request String) → r.inner ≡ key → Answers (ping now t r s))
      × Answers (logout now key s)
      × ((version : String) → Answers (network_status version now key s))
      × ((uuid recipient : String) → Answers (initialize now uuid key recipient s))
      × ((uuid : String) (choose : Choose) (id : String) → Answers (route now uuid choose key id s))
      × ((id nonce : String) → Answers (redeem now key id nonce s))
never_panics now key s random = (
  ping-Answers now key s,
  logout-Answers now key s,
  status-Answers now key s,
  initialize-Answers now key s,
  λ uuid choose id. route-Answers now uuid choose key id s (random id),
  redeem-Answers now key s,
)
