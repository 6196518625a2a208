-- ===== src/Controller/Runs/RouteHandlers.antt =====
-- The handlers of route_service.rs, and the turns of the tasks of controller/src/main.rs, keep the
-- state sound.
use fuzzy_chat.Prelude.{
  ℕ, ◌^◌, ◌<◌, String, Bool, List, Option, none, some, Outcome, Status, ok, ◌≡◌, refl, ap, inl, inr,
  arith, Option-cases, Bool-cases, Outcome-cases,
}
use mathlib.Core.Path.{subst}
use mathlib.Core.Option.{some-injective}
use fuzzy_chat.Prelude.Dict
use fuzzy_chat.Crosscutting.Component.{
  Component, ComponentDescriptor, to_u8, get_connection_settings, get_credentials,
}
use fuzzy_chat.Crosscutting.Endpoint.{AddrText, get_public_socket_address}
use fuzzy_chat.Crosscutting.Networking.{SocketAddr}
use fuzzy_chat.Crosscutting.Settings.{System, get_env_variable}
use fuzzy_chat.Controller.Membership.{read_members}
use fuzzy_chat.Controller.Models.{
  Conversation, SessionInfo, RouteResponse, RedeemResponse, new_conversation,
  to_connection_settings,
}
use fuzzy_chat.Controller.Routing
use fuzzy_chat.Controller.Routing.{without_dashes, route_to}
use fuzzy_chat.Controller.Routing.Strategy.{Choose, strategies, get_routing_id}
use fuzzy_chat.Controller.Runs.Sound.{Sound, SessionsSound}
use fuzzy_chat.Controller.Runs.Sessions.{
  store-SessionsSound, sessions-Sound, touch-Sound, keep_members-Sound,
}
use fuzzy_chat.Controller.Runs.Conversations.{
  set_conversation-RoutesSound, set_route-RoutesSound, remove_route-RoutesSound,
  remove_conversation-RoutesSound, routes-Sound,
}
use fuzzy_chat.Controller.Runs.Handlers.{unchanged, twice}
use fuzzy_chat.Controller.Services.Guards.Facts.{
  touch, get-touch, check_session-none, check_session-some, get_session-some,
  check_conversation-none, check_conversation-some,
}
use fuzzy_chat.Controller.Services.Routes.{initialize, route, redeem, handle_route}
use fuzzy_chat.Controller.Services.Routes.Cases.{
  IsStored, known-cases, route_no_session, route_no_conversation,
}
use fuzzy_chat.Controller.Services.Routes.Initializing.{begun}
use fuzzy_chat.Controller.Services.Routes.Redeeming.{redeem_hop, redeem_end}
use fuzzy_chat.Controller.Startup
use fuzzy_chat.Controller.Startup.Announcing.{announce_lem, announced, own_session}
use fuzzy_chat.Controller.State.{Controller}
use fuzzy_chat.Controller.Storage.Expiration.{renew}
use fuzzy_chat.Controller.Storage.Routes
use fuzzy_chat.Controller.Storage.Sessions
use fuzzy_chat.Controller.Storage.Sessions.Invariant.{Fresh}
use fuzzy_chat.Controller.Storage.Sessions.Shrinks.{Wrapped}

-- What `initialize` stores, whether its id is taken or not.
initialize_state :
    (now : ℕ) (uuid key recipient : String) (s : Controller) (w : Wrapped)
    → Dict.get s.session_manager.sessions key ≡ some w
    → (initialize now uuid key recipient s).1 ≡ record s {
      session_manager = (touch now key (renew now w) (touch now key w s)).session_manager;
      route_manager =
          (Routes.set_conversation now (begun uuid w.value.uid recipient) s.route_manager).1;
    }
unfolding initialize Routing.initialize Routing.set_conversation Routes.set_conversation strategies
    get_routing_id new_conversation
initialize_state now uuid key recipient s w f =
    elim (Option-cases (Dict.get s.route_manager.conversations (without_dashes uuid))) [
      | inl g ↦ ground (
        arith,
        check_session-some now key s w f,
        get_session-some now key (touch now key w s) (renew now w) (get-touch now key s w),
        g,
      )
      | inr (c, g) ↦ ground (
        arith,
        check_session-some now key s w f,
        get_session-some now key (touch now key w s) (renew now w) (get-touch now key s w),
        g,
      )
    ]

handle_route_state :
    (now : ℕ) (uuid id : String) (q : SessionInfo) (last : Bool) (s : Controller)
    → (handle_route now uuid id q last s).1 ≡ record s {
      route_manager =
          (Routes.set_route now id
            (route_to (to_connection_settings q) uuid last)
            s.route_manager).1;
    }
unfolding handle_route Routing.store_route
handle_route_state now uuid id q last s =
    elim (Option-cases
      (Routes.set_route now id (route_to (to_connection_settings q) uuid last) s.route_manager).0) [
        | inl e ↦ ground (arith, e)
        | inr (n, e) ↦ ground (arith, e)
      ]

-- The sessions that a route leads to have honest ports.
pub IsStored-port :
    (own : String) (q : SessionInfo) (s : Controller)
    → Sound own s
    → IsStored q s.session_manager
    → (to_connection_settings q).port < 2 ^ 16
unfolding to_connection_settings
IsStored-port own q s h (k, w, e, v) =
    subst (λ (i : SessionInfo). i.on_port_number < 2 ^ 16) v (h.sessions.honest k w e).port

handle_route-Sound :
    (own : String) (now : ℕ) (uuid id : String) (q : SessionInfo) (last : Bool) (s : Controller)
    → Sound own s
    → IsStored q s.session_manager
    → Sound own (handle_route now uuid id q last s).1
handle_route-Sound own now uuid id q last s h i =
    unchanged (handle_route_state now uuid id q last s) (
      routes-Sound h (
        set_route-RoutesSound now id (route_to (to_connection_settings q) uuid last)
          (IsStored-port own q s h i) h.routes))

-- What `redeem` leaves of a request of a session.
module _ (now : ℕ) (key id nonce : String) (s : Controller) (w : Wrapped)
    (f : Dict.get s.session_manager.sessions key ≡ some w) where
  redeem_refused :
      Dict.get s.route_manager.routes nonce ≡ none
      → (redeem now key id nonce s).1 ≡ touch now key w s
  unfolding redeem Routes.get_route
  redeem_refused k = elim (Option-cases (Routes.get_conversation id s.route_manager)) [
    | inl g ↦
        ground (
          arith,
          check_session-some now key s w f,
          check_conversation-none id (touch now key w s) g,
        )
    | inr (c, g) ↦ ground (
      arith,
      check_session-some now key s w f,
      check_conversation-some id (touch now key w s) c g,
      k,
    )
  ]

  redeem_no_talk :
      Dict.get s.route_manager.conversations id ≡ none
      → (redeem now key id nonce s).1 ≡ touch now key w s
  unfolding redeem Routes.get_conversation
  redeem_no_talk g =
      ground
        (arith, check_session-some now key s w f, check_conversation-none id (touch now key w s), g)

module _ {own : String} (now : ℕ) (key : String) (s : Controller) (h : Sound own s) where
  pub initialize-Sound :
      (uuid recipient : String) → Sound own (initialize now uuid key recipient s).1
  unfolding initialize
  initialize-Sound uuid recipient = elim (Option-cases (Dict.get s.session_manager.sessions key)) [
    | inl f ↦ unchanged (ground (arith, check_session-none now key s f)) h
    | inr (w, f) ↦ unchanged (initialize_state now uuid key recipient s w f) (
        routes-Sound (twice now key s h w f) (
          set_conversation-RoutesSound now (begun uuid w.value.uid recipient) refl
            (h.sessions.honest key w f).known h.routes))
  ]

  -- The conversations of a sound state have the one strategy that there is.
  pub strategy_random :
      (id : String) (c : Conversation)
      → Routes.get_conversation id s.route_manager ≡ some c
      → c.routing_id ≡ 1
  unfolding Routes.get_conversation
  strategy_random id c g = elim (Option-cases (Dict.get s.route_manager.conversations id)) [
    | inl f ↦ ground (arith, f, g)
    | inr (w, f) ↦
        let same : w.value ≡ c = some-injective _ _ (ground (arith, f, g)) in
        subst (λ (d : Conversation). d.routing_id ≡ 1) same (h.routes.talks id w f).random
  ]

  pub route-Sound :
      (uuid : String) (choose : Choose) (id : String) → Sound own (route now uuid choose key id s).1
  route-Sound uuid choose id = elim (Option-cases (Dict.get s.session_manager.sessions key)) [
    | inl f ↦ unchanged (route_no_session now uuid choose key id s f).1 h
    | inr (w, f) ↦
        let t = touch-Sound now key w f h in
        elim (Option-cases (Routes.get_conversation id s.route_manager)) [
          | inl g ↦ unchanged (route_no_conversation now uuid choose key id s w f g).1 t
          | inr (c, g) ↦
              elim (known-cases now uuid choose key id s w f c g (strategy_random id c g)) [
                | inl r ↦ unchanged r.1 t
                | inr (q, last, i, e) ↦
                    unchanged (ap (λ (x : Outcome Status RouteResponse × Controller). x.1) e)
                      (handle_route-Sound own now uuid id q last (touch now key w s) t i)
              ]
        ]
  ]

  pub redeem-Sound : (id nonce : String) → Sound own (redeem now key id nonce s).1
  unfolding redeem
  redeem-Sound id nonce = elim (Option-cases (Dict.get s.session_manager.sessions key)) [
    | inl f ↦ unchanged (ground (arith, check_session-none now key s f)) h
    | inr (w, f) ↦
        let t = touch-Sound now key w f h in
        let left = routes-Sound t (remove_route-RoutesSound nonce t.routes) in
        elim (Option-cases (Dict.get s.route_manager.routes nonce)) [
          | inl k ↦ unchanged (redeem_refused now key id nonce s w f k) t
          | inr (r, k) ↦ elim (Option-cases (Dict.get s.route_manager.conversations id)) [
            | inl g ↦ unchanged (redeem_no_talk now key id nonce s w f g) t
            | inr (v, g) ↦ elim (Bool-cases r.value.end_route) [
              | inr more ↦
                  unchanged (ap state (redeem_hop now key id nonce s w f v g r k more)) left
              | inl last ↦
                  unchanged (ap state (redeem_end now key id nonce s w f v g r k last))
                    (routes-Sound left (remove_conversation-RoutesSound id left.routes))
            ]
          ]
        ]
  ]
    where
      state : Outcome Status RedeemResponse × Controller → Controller
      state x = x.1

announced-SessionsSound :
    (addresses : AddrText) (hub : ComponentDescriptor) (address : SocketAddr)
    (valid : get_public_socket_address addresses {E = Status} (get_connection_settings hub)
      ≡ ok address)
    (now : ℕ) (key : String) (s : Controller)
    → (get_connection_settings hub).port < 2 ^ 16
    → Fresh key s.session_manager
    → Sound (get_credentials hub).uid s
    → SessionsSound
        (get_credentials hub).uid
        s.member_manager
        (announced addresses hub address valid now key s.session_manager)
unfolding Sessions.index Sessions.store to_u8
announced-SessionsSound addresses hub address valid now key s port fresh h =
    store-SessionsSound now Component.controller (own_session addresses hub address valid key) refl
      fresh
      (record {
        port = port;
        component = Component.controller;
        typed = refl;
        known = inl refl;
        controls = λ e. refl;
      })
      h.sessions

-- A turn of the task that announces the controller, whose port is one.
pub announce-Sound :
    (addresses : AddrText) (hub : ComponentDescriptor) (now : ℕ) (key : String) (s : Controller)
    → (get_connection_settings hub).port < 2 ^ 16
    → Fresh key s.session_manager
    → Sound (get_credentials hub).uid s
    → Sound (get_credentials hub).uid (Startup.announce addresses hub now key s).1
unfolding Startup.announce
announce-Sound addresses hub now key s port fresh h =
    elim (Outcome-cases
      (get_public_socket_address addresses {E = Status} (get_connection_settings hub))) [
        | inr (inl (e, bad)) ↦ unchanged (ground (arith, bad)) h
        | inr (inr bad) ↦ unchanged (ground (arith, bad)) h
        | inl (address, valid) ↦
            unchanged
              (ap (λ (x : Outcome Status String × Controller). x.1)
                (announce_lem addresses hub address valid now key s))
              (sessions-Sound h
                (announced-SessionsSound addresses hub address valid now key s port fresh h))
      ]

-- Reading the members keeps the state sound, whether the file is there or not.
pub seed-Sound :
    (own : String) (system : System) (records_of : String → Option (List (Option (List String))))
    (s : Controller)
    → Sound own s
    → Sound own (Startup.initialize system records_of s).1
unfolding Startup.initialize
seed-Sound own system records_of s h =
    elim (Outcome-cases (get_env_variable "MEMBERS_CSV_FILE" system).0) [
      | inr (inl (e, p)) ↦ unchanged (ground (arith, p)) h
      | inr (inr p) ↦ unchanged (ground (arith, p)) h
      | inl (path, p) ↦ elim (Option-cases (records_of path)) [
        | inl q ↦ unchanged (ground (arith, p, q)) h
        | inr (records, q) ↦ elim (Outcome-cases (read_members records)) [
          | inr (inl (e, r)) ↦ unchanged (ground (arith, p, q, r)) h
          | inr (inr r) ↦ unchanged (ground (arith, p, q, r)) h
          | inl (members, r) ↦
              unchanged (ground (arith, p, q, r)) (keep_members-Sound own members s h)
        ]
      ]
    ]
