-- ===== src/Network/Journey.antt =====
-- The journey of a message over the proxies to its recipient.
use fuzzy_chat.Prelude.{
  ℕ, ◌+◌, ◌%◌, ◌^◌, String, false, true, ◌≡◌, ◌≢◌, refl, none, some, ok, arith, List, [], ◌∷◌, ◌++◌,
  length, Option,
}
use fuzzy_chat.Prelude.Int.{pos}
use fuzzy_chat.Prelude.Dict
use fuzzy_chat.Prelude.Dict.{Dict}
use fuzzy_chat.Controller.Models.{SessionInfo}
use fuzzy_chat.Controller.State.{Controller}
use fuzzy_chat.Controller.Routing.Strategy.Choice.{IsChoice}
use fuzzy_chat.Controller.Storage.Sessions.{SessionRepository, get_client, get_proxies}
use fuzzy_chat.Controller.Storage.Sessions.Lookup.{IsOtherProxy}
use fuzzy_chat.Controller.Services.Routes.{redeem}
use fuzzy_chat.Controller.Services.Routes.Hops.{answer}
use fuzzy_chat.Crosscutting.Endpoint.{to_https_endpoint}
use fuzzy_chat.Gateway.Clients.{CommandRequest}
use fuzzy_chat.Proxy.Service.{execute_command, send}
use fuzzy_chat.Client.Landing.{TextMessage, new_message}
use fuzzy_chat.Network.{World, Draw, Texts, network, logged_in_as}
use fuzzy_chat.Network.Sessions.{Same, Same-get}
use fuzzy_chat.Network.Steps.{execute_steps, send_on_steps, send_end_steps}
use fuzzy_chat.Network.Talks.{
  Talking, HasRoute, HasSession, Unused, redeemed, redeemed_end, hop, last_hop,
}
use fuzzy_chat.Network.Calls.{
  router_initialize, router_redeem, router_route, proxy_initialize, proxy_send, lander_initialize,
  lander_send,
}

-- Draws whose random choices are of their ranges.
abbrev pub Fair : List Draw → Type 0
Fair [] = Unit
Fair (d ∷ ds) = IsChoice d.choose × Fair ds

abbrev pub Apart : String → List Draw → Type 0
Apart nonce [] = Unit
Apart nonce (d ∷ ds) = (nonce ≢ d.uuid) × Apart nonce ds

-- Draws whose nonces are new, and differ.
abbrev pub New : List Draw → Controller → Type 0
New [] s = Unit
New (d ∷ ds) s = Unused d.uuid s × Apart d.uuid ds × New ds s

pub New-keeps :
    (ds : List Draw) (s q : Controller)
    → ((n : String) → Unused n s → Unused n q)
    → New ds s
    → New ds q
New-keeps [] s q keeps h = tt
New-keeps (d ∷ ds) s q keeps (a, b, c) = (keeps d.uuid a, b, New-keeps ds s q keeps c)

pub New-Apart :
    (nonce : String) (ds : List Draw) (s q : Controller)
    → ((n : String) → nonce ≢ n → Unused n s → Unused n q)
    → Apart nonce ds
    → New ds s
    → New ds q
New-Apart nonce [] s q keeps p h = tt
New-Apart nonce (d ∷ ds) s q keeps (ne, p) (a, b, c) =
    (keeps d.uuid ne a, b, New-Apart nonce ds s q keeps p c)

-- A session whose address is an endpoint.
pub record At (t : Texts) (q : SessionInfo) (uri : String) : Type 0 where
  pub small : q.on_port_number % 2 ^ 16 ≡ q.on_port_number
  pub address : to_https_endpoint t.uris q.on_ip_address q.on_port_number ≡ ok uri

-- Every component knows another proxy, and every indexed proxy is where its session says, logged in
-- with the access key of a session.
pub record Connected (t : Texts) (proxies : String → Option String) (r : SessionRepository)
    : Type 0 where
  pub others :
      (key : String)
      → (p : SessionInfo) × (ps : List SessionInfo) × (get_proxies key r ≡ some (p ∷ ps))
  pub placed :
      (key : String) (q : SessionInfo)
      → IsOtherProxy key r q
      → (uri : String) × (own : String) × At t q uri × (proxies uri ≡ some own) × HasSession own r

module _ (t : Texts) (proxies : String → Option String) (r : SessionRepository)
    (connected : Connected t proxies r) (id sender recipient : String) (content : List ℕ)
    (q : SessionInfo) (is_client : get_client recipient r ≡ some q) (uri : String)
    (listens : At t q uri) (channel : List TextMessage) where
  abbrev pub command : String → CommandRequest
  command nonce = record {
    conversation_id = id;
    nonce = nonce;
    command = pos 1;
    content = some content;
  }

  -- The world in which the recipient has got the message.
  pub record Delivered (a b : World) : Type 0 where
    pub now : ℕ
    pub arrived :
        b.channels
        ≡ Dict.insert a.channels uri
            (channel ++ new_message t.from_utf8_lossy now sender "myself" content ∷ [])
    pub same : Same r b.controller.session_manager

  -- A proxy with a command that has been routed to it.
  pub record Routed (key nonce : String) (count : ℕ) (w : World) : Type 0 where
    pub own : HasSession key r
    pub talking : Talking r id sender recipient count w.controller
    pub has_route : HasRoute nonce false w.controller
    pub listening : Dict.get w.channels uri ≡ some channel

  -- The answer of a proxy whose command is redeemed and then sent.
  answered :
      (d : Draw) (ds : List Draw) (key nonce : String) (info : Option String) (w : World)
      (a : Controller) (c : World)
      → redeem d.now key id nonce w.controller ≡ (ok (record { source_info = info }), a)
      → send t.uris (network t proxies (d ∷ ds)) id key content (record w { controller = a })
        ≡ (ok tt, c)
      → execute_command t.uris
          (network t proxies (d ∷ ds))
          (logged_in_as key)
          t.debug
          (command nonce)
          w
        ≡ (ok (some "Message sent"), c)
  answered d ds key nonce info w a c redeem_eq sent =
      execute_steps t.uris (network t proxies (d ∷ ds)) (logged_in_as key) t.debug id key nonce
        content (record { source_info = info }) w (record w { controller = a }) c refl refl
        (router_initialize t proxies d ds w)
        (router_redeem t proxies d ds w id key nonce (record { source_info = info }) a redeem_eq)
        sent

  -- A proxy with a routed command sends the message on, over the proxies, until it is delivered.
  pub journey :
      (d : Draw) (ds : List Draw) (key nonce : String) (count : ℕ) (w : World)
      → Routed key nonce count w
      → count + length (d ∷ ds) ≡ 4
      → Fair (d ∷ ds)
      → New (d ∷ ds) w.controller
      → (b : World) × (execute_command t.uris
            (network t proxies (d ∷ ds))
            (logged_in_as key)
            t.debug
            (command nonce)
            w
          ≡ (ok (some "Message sent"), b))
        × Delivered w b
  journey d [] key nonce count w routed four (fair, _) (new, _, _) =
      let (a, redeem_eq, talks, keeps) =
        redeemed r id sender recipient d.now key nonce count w.controller routed.talking routed.own
          routed.has_route in
      let (s, has, _) = Same-get key routed.own.0 talks.same routed.own.1 in
      let (b, route_eq, talks', last) =
        last_hop r id sender recipient d.now d.uuid d.choose key count a talks s has
          (keeps d.uuid new) (omega arith) q is_client in
      let (c, end_eq, same) =
        redeemed_end r id sender recipient d.now key d.uuid (count + 1) b talks' routed.own last in
      let sent =
        lander_send t proxies d [] (record w { controller = b }) uri q.public_key q.domain_name
          channel routed.listening id key d.uuid content sender c end_eq in
      let ready =
        lander_initialize t proxies d [] (record w { controller = b }) uri q.public_key
          q.domain_name channel routed.listening in
      (
        record {
          controller = c;
          channels =
              Dict.insert w.channels uri
                (channel ++ new_message t.from_utf8_lossy d.now sender "myself" content ∷ []);
        },
        answered d [] key nonce none w a _ redeem_eq (
            send_end_steps t.uris (network t proxies (d ∷ [])) id key content (answer q d.uuid true)
              (record w { controller = a }) (record w { controller = b }) _ uri
              (router_initialize t proxies d [] (record w { controller = a }))
              (router_route t proxies d [] (record w { controller = a }) id key
                (answer q d.uuid true) b route_eq)
              listens.small listens.address refl ready sent),
        record { now = d.now; arrived = refl; same = same },
      )
  journey d (d' ∷ ds) key nonce count w routed four (fair, fairs) (new, apart, news) =
      let (a, redeem_eq, talks, keeps) =
        redeemed r id sender recipient d.now key nonce count w.controller routed.talking routed.own
          routed.has_route in
      let (s, has, _) = Same-get key routed.own.0 talks.same routed.own.1 in
      let (p, ps, found) = connected.others key in
      let (next, other, b, route_eq, talks', last, unused) =
        hop r id sender recipient d.now d.uuid d.choose key count a talks s has (keeps d.uuid new)
          fair (λ three. omega (arith, three)) p ps found in
      let (there, own, at, proxied, live) = connected.placed key next other in
      let (c, next_eq, delivered) =
        journey d' ds own d.uuid (count + 1) (record w { controller = b })
          (record { own = live; talking = talks'; has_route = last; listening = routed.listening })
          (omega arith) fairs
          (New-Apart d.uuid (d' ∷ ds) a b unused apart
            (New-keeps (d' ∷ ds) w.controller a keeps news)) in
      (
        c,
        answered d (d' ∷ ds) key nonce none w a c redeem_eq (
            send_on_steps t.uris (network t proxies (d ∷ d' ∷ ds)) id key content
              (answer next d.uuid false) (record w { controller = a }) (record w { controller = b })
              c there (router_initialize t proxies d (d' ∷ ds) (record w { controller = a }))
              (router_route t proxies d (d' ∷ ds) (record w { controller = a }) id key
                (answer next d.uuid false) b route_eq)
              at.small at.address (some "Message sent") refl
              (proxy_initialize t proxies d (d' ∷ ds) (record w { controller = b }) there own
                next.public_key next.domain_name proxied)
              (proxy_send t proxies d (d' ∷ ds) (record w { controller = b }) there own
                next.public_key next.domain_name proxied id d.uuid content (some "Message sent") c
                next_eq)),
        record { now = delivered.now; arrived = delivered.arrived; same = delivered.same },
      )
