-- ===== src/Network/Asking.antt =====
-- `Commander.get_status` over the network: what a client is told of the status.
use Prim.Native.String as Text
use fuzzy_chat.Prelude.{
  ℕ, ◌≡◌, refl, none, some, ok, arith, List, [], ◌∷◌, Option, String, false, ◌∙◌, ap,
}
use fuzzy_chat.Prelude.Dict
use fuzzy_chat.Controller.Models.{RouteResponse, StatusResponse}
use fuzzy_chat.Controller.State.{Controller}
use fuzzy_chat.Controller.Routing.{without_dashes}
use fuzzy_chat.Controller.Routing.Strategy.Choice.{IsChoice}
use fuzzy_chat.Controller.Session
use fuzzy_chat.Controller.Storage.Expiration.{renew}
use fuzzy_chat.Controller.Storage.Sessions
use fuzzy_chat.Controller.Storage.Sessions.{SessionRepository}
use fuzzy_chat.Controller.Storage.Sessions.Shrinks.{Wrapped}
use fuzzy_chat.Controller.Services.Guards.Facts.{touch, get-touch, check_session-some}
use fuzzy_chat.Controller.Services.Info.{network_status, to_u32}
use fuzzy_chat.Controller.Services.Routes.Hops.{answer}
use fuzzy_chat.Controller.Services.Routes.Initializing.{
  initialized, initialize_lem, initialized-Ready,
}
use fuzzy_chat.Crosscutting.Endpoint.{UriText, to_https_endpoint}
use fuzzy_chat.Gateway.Clients.{Factories, CommandType}
use fuzzy_chat.Client.Commander.{command, get_status}
use fuzzy_chat.Client.Commander.FirstHop.{initialize_steps}
use fuzzy_chat.Network.{World, Draw, Texts, network, logged_in_as}
use fuzzy_chat.Network.Calls.{
  router_initialize, router_init, router_route, router_redeem, proxy_initialize, proxy_ask,
  informer_initialize, informer_status,
}
use fuzzy_chat.Network.Journey.{Connected}
use fuzzy_chat.Network.Sessions.{Same, Same-trans, Same-touch, Same-get}
use fuzzy_chat.Network.Steps.{status_steps}
use fuzzy_chat.Network.Talks.{Talking, hop, redeemed, Unused}

-- The steps of `get_status`, when the router and the proxy answer.
ask_steps :
    {S Uri : Type 0} (uris : UriText Uri) (f : Factories S Uri) (key id : String)
    (show : String → String) (r : RouteResponse) (uri : Uri) (x : Option String) (s b c e : S)
    → f.get_router.initialize s ≡ (ok tt, s)
    → f.get_router.init_conversation key "" s ≡ (ok id, b)
    → f.get_router.get_route id key b ≡ (ok r, c)
    → to_https_endpoint uris r.ip_address r.port_number ≡ ok uri
    → (f.get_proxy uri r.public_key r.domain_name).initialize c ≡ (ok tt, c)
    → (f.get_proxy uri r.public_key r.domain_name).send_command id r.nonce CommandType.status [] c
      ≡ (ok x, e)
    → get_status uris f key show s ≡ (ok x, e)
unfolding get_status command
ask_steps uris f key id show r uri x s b c e i n g u p m =
    ground (arith, initialize_steps uris f key "" id r s b c i n g, u, p, m)

-- The status of a controller with those sessions.
abbrev pub status_of : String → SessionRepository → StatusResponse
status_of version r = record {
  version = version;
  connected_clients = to_u32 (Dict.len r.clients);
  connected_proxies = to_u32 (Dict.len r.proxies);
  connected_controllers = to_u32 (Dict.len r.controllers);
}

network_status_lem :
    (version key : String) (now : ℕ) (s : Controller) (w : Wrapped)
    → Dict.get s.session_manager.sessions key ≡ some w
    → network_status version now key s
      ≡ (ok (status_of version s.session_manager), touch now key w s)
unfolding network_status Session.count_clients Session.count_proxies Session.count_controllers
    Sessions.count_clients Sessions.count_proxies Sessions.count_controllers
network_status_lem version key now s w e = ground (arith, check_session-some now key s w e)

status_of-Same :
    (version : String) (r q : SessionRepository)
    → Same r q
    → status_of version q ≡ status_of version r
status_of-Same version r q h = ground (arith, h.clients, h.proxies, h.controllers)

module _ (t : Texts) (proxies : String → Option String) (d : Draw) (w : World) (key : String)
    (session : Wrapped)
    (has_session : Dict.get w.controller.session_manager.sessions key ≡ some session)
    (new_id : Dict.get w.controller.route_manager.conversations (without_dashes d.conversation_uuid)
      ≡ none) where
  abbrev id : String
  id = without_dashes d.conversation_uuid

  abbrev start : Controller
  start = initialized d.now d.conversation_uuid key "" w.controller session has_session new_id

  talking : Talking w.controller.session_manager id session.value.uid "controller_uid" 0 start
  unfolding initialized-Ready
  talking =
      let ready =
        initialized-Ready d.now d.conversation_uuid key "" w.controller session has_session
          new_id in
      record {
        same = Same-trans (Same-touch d.now key session w.controller has_session) (
            Same-touch d.now key (renew d.now session) (touch d.now key session w.controller)
              (get-touch d.now key w.controller session));
        talk = ready.conversation;
        has_talk = ready.has_conversation;
        by_sender = refl;
        to_recipient = refl;
        random = refl;
        counted = refl;
      }

  -- A client with a session asks for the status, over a network of two draws at least in which every
  -- access key is offered another proxy, and every indexed proxy is at the endpoint of its session,
  -- logged in with the access key of a session. When the new conversation and the nonce are new, and
  -- the random choice is one of its range, the client is told the version and the numbers of clients,
  -- proxies and controllers in the indexes, each of them 0 if it does not fit 32 bits; no channel
  -- changes, and the sessions are the same but for their times.
  pub status_told :
      Connected t proxies w.controller.session_manager
      → (next : Draw) (ds : List Draw) → IsChoice d.choose
      → Unused d.uuid w.controller
      → (show : String → String)
      → (b : World) × (get_status t.uris (network t proxies (d ∷ next ∷ ds)) key show w ≡ (
        ok (
            some
              (Text.◌++◌ "Status: " (t.debug (status_of t.version w.controller.session_manager)))),
        b,
      ))
        × (b.channels ≡ w.channels)
        × Same w.controller.session_manager b.controller.session_manager
  status_told connected next ds fair new show =
      let r = w.controller.session_manager in
      let uid = session.value.uid in
      let s = renew d.now (renew d.now session) in
      let has = get-touch d.now key (touch d.now key session w.controller) (renew d.now session) in
      let (p, ps, found) = connected.others key in
      let (q, other, c, route_eq, talks, last, _) =
        hop r id uid "controller_uid" d.now d.uuid d.choose key 0 start talking s has new fair
          (λ z. omega (arith, z)) p ps found in
      let (first, own, at, there, live) = connected.placed key q other in
      let (a, redeem_eq, talks', _) =
        redeemed r id uid "controller_uid" next.now own d.uuid 1 c talks live last in
      let (v, owned, _) = Same-get own live.0 talks'.same live.1 in
      let answer_is : status_of t.version a.session_manager ≡ status_of t.version r =
        status_of-Same t.version r a.session_manager talks'.same in
      let b = record w { controller = touch next.now own v a } in
      let told = network_status_lem t.version own next.now a v owned in
      let text = some (Text.◌++◌ "Status: " (t.debug (status_of t.version r))) in
      (
        b,
        ask_steps t.uris (network t proxies (d ∷ next ∷ ds)) key id show (answer q d.uuid false)
            first text w (record w { controller = start }) (record w { controller = c }) b
            (router_initialize t proxies d (next ∷ ds) w)
            (router_init t proxies d (next ∷ ds) w key "" id start (
              initialize_lem d.now d.conversation_uuid key "" w.controller session has_session
                new_id))
            (router_route t proxies d (next ∷ ds) (record w { controller = start }) id key
              (answer q d.uuid false) c route_eq)
            at.address
            (proxy_initialize t proxies d (next ∷ ds) (record w { controller = c }) first own
              q.public_key q.domain_name there)
            (proxy_ask t proxies d (next ∷ ds) (record w { controller = c }) first own q.public_key
              q.domain_name there id d.uuid text b
              (status_steps t.uris (network t proxies (next ∷ ds)) (logged_in_as own) t.debug id own
                  d.uuid (record { source_info = none }) (status_of t.version a.session_manager)
                  (record w { controller = c }) (record w { controller = a }) b refl refl
                  (router_initialize t proxies next ds (record w { controller = c }))
                  (router_redeem t proxies next ds (record w { controller = c }) id own d.uuid
                    (record { source_info = none }) a redeem_eq)
                  (informer_initialize t proxies next ds (record w { controller = a }))
                  (informer_status t proxies next ds (record w { controller = a }) own
                    (status_of t.version a.session_manager) (touch next.now own v a) told)
                ∙ ap (λ (o : StatusResponse). (ok (some (Text.◌++◌ "Status: " (t.debug o))), b))
                    answer_is)),
        refl,
        Same-trans talks'.same (Same-touch next.now own v a owned),
      )
