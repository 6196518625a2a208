-- ===== src/Network/Calls.antt =====
-- What the clients of `network` answer when those that they reach do.
use fuzzy_chat.Prelude.{ℕ, String, ◌≡◌, refl, some, ok, arith, List, [], ◌∷◌, ◌++◌, Option}
use fuzzy_chat.Prelude.Int.{pos}
use fuzzy_chat.Prelude.Dict
use fuzzy_chat.Controller.Models.{RouteResponse, RedeemResponse, StatusResponse}
use fuzzy_chat.Controller.State.{Controller}
use fuzzy_chat.Controller.Services.Routes as Services
use fuzzy_chat.Controller.Services.Info.{network_status}
use fuzzy_chat.Gateway.Clients.{CommandType, command_number}
use fuzzy_chat.Gateway.ProxyClient.{proxy_client}
use fuzzy_chat.Gateway.RouteClient.{route_client}
use fuzzy_chat.Proxy.Clients.{landing_client, info_client}
use fuzzy_chat.Proxy.Service.{execute_command}
use fuzzy_chat.Client.Landing.{TextMessage, TextRequest, receive, new_message}
use fuzzy_chat.Network.{World, Draw, Texts, network, router, logged_in_as}

module _ (t : Texts) (proxies : String → Option String) (d : Draw) (ds : List Draw)
    (w : World) where
  pub router_initialize : (network t proxies (d ∷ ds)).get_router.initialize w ≡ (ok tt, w)
  unfolding network route_client
  router_initialize = refl

  pub router_init :
      (key recipient id : String) (q : Controller)
      → Services.initialize d.now d.conversation_uuid key recipient w.controller ≡ (ok id, q)
      → (network t proxies (d ∷ ds)).get_router.init_conversation key recipient w
        ≡ (ok id, record w { controller = q })
  unfolding network route_client
  router_init key recipient id q e = rw e

  pub router_redeem :
      (id key nonce : String) (r : RedeemResponse) (q : Controller)
      → Services.redeem d.now key id nonce w.controller ≡ (ok r, q)
      → (network t proxies (d ∷ ds)).get_router.redeem id key nonce w
        ≡ (ok r, record w { controller = q })
  unfolding network route_client
  router_redeem id key nonce r q e = rw e

  pub router_route :
      (id key : String) (r : RouteResponse) (q : Controller)
      → Services.route d.now d.uuid d.choose key id w.controller ≡ (ok r, q)
      → (network t proxies (d ∷ ds)).get_router.get_route id key w
        ≡ (ok r, record w { controller = q })
  unfolding network route_client
  router_route id key r q e = rw e

  module _ (uri key : String) (certificate : List ℕ) (domain : String)
      (there : proxies uri ≡ some key) where
    pub proxy_initialize :
        ((network t proxies (d ∷ ds)).get_proxy uri certificate domain).initialize w ≡ (ok tt, w)
    unfolding network proxy_client
    proxy_initialize = rw there

    pub proxy_send :
        (id nonce : String) (content : List ℕ) (x : Option String) (q : World)
        → execute_command t.uris
            (network t proxies ds)
            (logged_in_as key)
            t.debug
            (record {
              conversation_id = id;
              nonce = nonce;
              command = pos 1;
              content = some content;
            })
            w
          ≡ (ok x, q)
        → ((network t proxies (d ∷ ds)).get_proxy uri certificate domain).send_command id nonce
            CommandType.send content w
          ≡ (ok x, q)
    unfolding network proxy_client command_number
    proxy_send id nonce content x q e = rw (there, e)

    pub proxy_ask :
        (id nonce : String) (x : Option String) (q : World)
        → execute_command t.uris
            (network t proxies ds)
            (logged_in_as key)
            t.debug
            (record { conversation_id = id; nonce = nonce; command = pos 2; content = some [] })
            w
          ≡ (ok x, q)
        → ((network t proxies (d ∷ ds)).get_proxy uri certificate domain).send_command id nonce
            CommandType.status [] w
          ≡ (ok x, q)
    unfolding network proxy_client command_number
    proxy_ask id nonce x q e = rw (there, e)

  pub informer_initialize : (network t proxies (d ∷ ds)).get_informer.initialize w ≡ (ok tt, w)
  unfolding network info_client
  informer_initialize = refl

  pub informer_status :
      (key : String) (r : StatusResponse) (q : Controller)
      → network_status t.version d.now key w.controller ≡ (ok r, q)
      → (network t proxies (d ∷ ds)).get_informer.get_status key w
        ≡ (ok r, record w { controller = q })
  unfolding network info_client
  informer_status key r q e = rw e

  receive_ok :
      (request : TextRequest) (channel : List TextMessage) (sender : String) (q : Controller)
      → Services.redeem d.now request.access_key request.conversation_id request.nonce w.controller
        ≡ (ok (record { source_info = some sender }), q)
      → receive
          (router t proxies d)
          t.from_utf8_lossy
          d.now
          request
          (record { world = w.controller; channel = channel })
        ≡ (
          ok tt,
          record {
            world = q;
            channel =
                channel ++ new_message t.from_utf8_lossy d.now sender "myself" request.content ∷ [];
          },
        )
  unfolding receive route_client
  receive_ok request channel sender q e = ground (arith, e)

  module _ (uri : String) (certificate : List ℕ) (domain : String) (channel : List TextMessage)
      (there : Dict.get w.channels uri ≡ some channel) where
    pub lander_initialize :
        ((network t proxies (d ∷ ds)).get_lander uri certificate domain).initialize w ≡ (ok tt, w)
    unfolding network
    lander_initialize = ground (arith, there)

    pub lander_send :
        (id key nonce : String) (content : List ℕ) (sender : String) (q : Controller)
        → Services.redeem d.now key id nonce w.controller
          ≡ (ok (record { source_info = some sender }), q)
        → ((network t proxies (d ∷ ds)).get_lander uri certificate domain).send_message id key nonce
            content w
          ≡ (
            ok tt,
            record {
              controller = q;
              channels =
                  Dict.insert w.channels uri
                    (channel ++ new_message t.from_utf8_lossy d.now sender "myself" content ∷ []);
            },
          )
    unfolding network landing_client
    lander_send id key nonce content sender q e = ground (
      arith,
      there,
      receive_ok
          (record { conversation_id = id; access_key = key; nonce = nonce; content = content })
          channel sender q e,
    )
