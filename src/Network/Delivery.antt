-- ===== src/Network/Delivery.antt =====
-- `Commander.send_message` over the network: from a client to another.
use fuzzy_chat.Prelude.{
  ℕ, ◌≡◌, ◌≢◌, refl, none, some, ok, arith, List, [], ◌∷◌, ◌++◌, length, Option, String, false,
  eq_iff,
}
use fuzzy_chat.Prelude.Dict
use fuzzy_chat.Prelude.Dict.{get-insert_self}
use fuzzy_chat.Controller.Models.{SessionInfo, RouteResponse}
use fuzzy_chat.Controller.State.{Controller}
use fuzzy_chat.Controller.Routing.{without_dashes}
use fuzzy_chat.Controller.Storage.Sessions.{get_client}
use fuzzy_chat.Controller.Storage.Sessions.Shrinks.{Wrapped}
use fuzzy_chat.Controller.Services.Guards.Facts.{touch, get-touch}
use fuzzy_chat.Controller.Services.Routes.Initializing.{
  initialized, initialize_lem, initialized-Ready,
}
use fuzzy_chat.Controller.Services.Routes.Hops.{answer}
use fuzzy_chat.Controller.Storage.Expiration.{renew}
use fuzzy_chat.Crosscutting.Endpoint.{UriText, to_https_endpoint}
use fuzzy_chat.Gateway.Clients.{Factories, CommandType}
use fuzzy_chat.Client.Commander.{command, send_message}
use fuzzy_chat.Client.Commander.FirstHop.{initialize_steps}
use fuzzy_chat.Client.Landing.{TextMessage, new_message}
use fuzzy_chat.Network.{World, Draw, Texts, network}
use fuzzy_chat.Network.Calls.{
  router_initialize, router_init, router_route, proxy_initialize, proxy_send,
}
use fuzzy_chat.Network.Journey.{Fair, New, New-keeps, New-Apart, At, Connected, journey}
use fuzzy_chat.Network.Sessions.{Same, Same-trans, Same-touch}
use fuzzy_chat.Network.Talks.{Talking, hop}

-- The steps of `send_message`, when the router and the proxy answer.
send_steps :
    {S Uri : Type 0} (uris : UriText Uri) (f : Factories S Uri) (key recipient id : String)
    (show : String → String) (content : List ℕ) (r : RouteResponse) (uri : Uri) (x : Option String)
    (s b c e : S)
    → f.get_router.initialize s ≡ (ok tt, s)
    → f.get_router.init_conversation key recipient s ≡ (ok id, b)
    → f.get_router.get_route id key b ≡ (ok r, c)
    → to_https_endpoint uris r.ip_address r.port_number ≡ ok uri
    → (f.get_proxy uri r.public_key r.domain_name).initialize c ≡ (ok tt, c)
    → (f.get_proxy uri r.public_key r.domain_name).send_command id r.nonce CommandType.send content
        c
      ≡ (ok x, e)
    → send_message uris f key show recipient content s ≡ (ok x, e)
unfolding send_message command
send_steps uris f key recipient id show content r uri x s b c e i n g u p m =
    ground (arith, initialize_steps uris f key recipient id r s b c i n g, u, p, m)

module _ (t : Texts) (proxies : String → Option String) (d : Draw) (w : World)
    (key recipient : String) (session : Wrapped)
    (has_session : Dict.get w.controller.session_manager.sessions key ≡ some session)
    (named : recipient ≢ "")
    (new_id : Dict.get w.controller.route_manager.conversations (without_dashes d.conversation_uuid)
      ≡ none) where
  abbrev id : String
  id = without_dashes d.conversation_uuid

  abbrev start : Controller
  start =
      initialized d.now d.conversation_uuid key recipient w.controller session has_session new_id

  talking : Talking w.controller.session_manager id session.value.uid recipient 0 start
  unfolding initialized-Ready
  talking =
      let ready =
        initialized-Ready d.now d.conversation_uuid key recipient w.controller session has_session
          new_id in
      record {
        same = Same-trans (Same-touch d.now key session w.controller has_session) (
            Same-touch d.now key (renew d.now session) (touch d.now key session w.controller)
              (get-touch d.now key w.controller session));
        talk = ready.conversation;
        has_talk = ready.has_conversation;
        by_sender = refl;
        to_recipient = ground (arith, eq_iff recipient "", named);
        random = refl;
        counted = refl;
      }

  -- A client with a session sends a message to a uid that is not empty, over a network of four draws in
  -- which every access key is offered another proxy, every indexed proxy is at the endpoint of its
  -- session, logged in with the access key of a session, and the recipient is at its own endpoint
  -- with an open channel. When the new conversation and the four nonces are new, and the random
  -- choices of their ranges, the sender is answered "Message sent"; the recipient's channel has one
  -- message more, from the sender's uid with the content as lossy text; no other channel changes, and
  -- the sessions are the same but for their times.
  pub message_delivered :
      (connected : Connected t proxies w.controller.session_manager)
      → (ds : List Draw) → length ds ≡ 3
      → Fair (d ∷ ds)
      → New (d ∷ ds) w.controller
      → (q : SessionInfo) → get_client recipient w.controller.session_manager ≡ some q
      → (uri : String) → At t q uri
      → (channel : List TextMessage) → Dict.get w.channels uri ≡ some channel
      → (show : String → String) (content : List ℕ)
      → (b : World) × (now : ℕ) × (send_message t.uris
            (network t proxies (d ∷ ds))
            key
            show
            recipient
            content
            w
          ≡ (ok (some "Message sent"), b))
        × (b.channels
            ≡ Dict.insert w.channels uri (
                channel
                ++ new_message t.from_utf8_lossy now session.value.uid "myself" content ∷ []))
        × Same w.controller.session_manager b.controller.session_manager
  message_delivered connected [] three fair new q client uri at channel there show content =
      absurd (omega (arith, three))
  message_delivered connected (d' ∷ ds) three (fair, fairs) (new, apart, news) q client uri at
        channel there show content =
      let r = w.controller.session_manager in
      let uid = session.value.uid in
      let s = renew d.now (renew d.now session) in
      let has = get-touch d.now key (touch d.now key session w.controller) (renew d.now session) in
      let (p, ps, found) = connected.others key in
      let (next, other, c, route_eq, talks, last, unused) =
        hop r id uid recipient d.now d.uuid d.choose key 0 start talking s has new fair
          (λ z. omega (arith, z)) p ps found in
      let (first, own, there', proxied, live) = connected.placed key next other in
      let (b, sent, delivered) =
        journey t proxies r connected id uid recipient content q client uri at channel d' ds own
          d.uuid 1 (record w { controller = c })
          (record { own = live; talking = talks; has_route = last; listening = there })
          (omega (arith, three)) fairs
          (New-Apart d.uuid (d' ∷ ds) start c unused apart
            (New-keeps (d' ∷ ds) w.controller start (λ n h. h) news)) in
      (
        b,
        delivered.now,
        send_steps t.uris (network t proxies (d ∷ d' ∷ ds)) key recipient id show content
            (answer next d.uuid false) first (some "Message sent") w
            (record w { controller = start }) (record w { controller = c }) b
            (router_initialize t proxies d (d' ∷ ds) w)
            (router_init t proxies d (d' ∷ ds) w key recipient id start (
              initialize_lem d.now d.conversation_uuid key recipient w.controller session
                has_session new_id))
            (router_route t proxies d (d' ∷ ds) (record w { controller = start }) id key
              (answer next d.uuid false) c route_eq)
            there'.address
            (proxy_initialize t proxies d (d' ∷ ds) (record w { controller = c }) first own
              next.public_key next.domain_name proxied)
            (proxy_send t proxies d (d' ∷ ds) (record w { controller = c }) first own
              next.public_key next.domain_name proxied id d.uuid content (some "Message sent") b
              sent),
        delivered.arrived,
        delivered.same,
      )
