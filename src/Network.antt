-- ===== src/Network.antt =====
-- The program composed: a controller, proxies and clients that call each other. The addresses of the
-- proxies, with the access keys that they have logged in with, are an argument; a channel that
-- leads nowhere fails.
pub mod Sessions
pub mod Steps
pub mod Talks
pub mod Calls
pub mod Journey
pub mod Delivery
pub mod Typed
pub mod Asking
use Prim.Native.String.{String}
use fuzzy_chat.Prelude.{
  ℕ, Option, none, some, List, [], ◌∷◌, Exec, Status, fail, pure, ok, err, true,
}
use fuzzy_chat.Prelude.Int.{pos}
use fuzzy_chat.Prelude.Dict
use fuzzy_chat.Prelude.Dict.{Dict}
use fuzzy_chat.Crosscutting.Endpoint.{UriText}
use fuzzy_chat.Controller.Models.{StatusResponse}
use fuzzy_chat.Controller.State.{Controller}
use fuzzy_chat.Controller.Routing.Strategy.{Choose}
use fuzzy_chat.Controller.Services.Info.{network_status}
use fuzzy_chat.Gateway.Clients.{Router, Informer, Lander, Proxy, Factories}
use fuzzy_chat.Gateway.ProxyClient.{proxy_client}
use fuzzy_chat.Gateway.RouteClient.{route_client}
use fuzzy_chat.Gateway.Session.{Authenticator}
use fuzzy_chat.Proxy.Clients.{landing_client, info_client}
use fuzzy_chat.Proxy.Service.{execute_command}
use fuzzy_chat.Client.Landing.{Landing, TextMessage, TextRequest, receive}

-- The controller, and the channel of each client by its endpoint.
pub record World : Type 0 where
  pub controller : Controller
  pub channels : Dict (List TextMessage)

-- What one visit of the controller draws: the instant, the new uuids and the random choice.
pub record Draw : Type 0 where
  pub now : ℕ
  pub conversation_uuid : String
  pub uuid : String
  pub choose : Choose

-- What is not the program's own: the texts of numbers and endpoints, of statuses, of bytes and of a
-- `StatusResponse`, and what a broken call is told.
pub record Texts : Type 0 where
  pub uris : UriText String
  pub show : Status → String
  pub lost : String
  pub from_utf8_lossy : List ℕ → String
  pub debug : StatusResponse → String
  pub version : String

module _ {E A : Type 0} where
  -- What happens at the controller.
  abbrev pub at_controller : Exec Controller E A → Exec World E A
  at_controller m w = ((m w.controller).0, record w { controller = (m w.controller).1 })

  -- What happens at a client with that channel, which reaches the controller.
  abbrev pub at_client : String → List TextMessage → Exec (Landing Controller) E A → Exec World E A
  at_client endpoint channel m w =
      let r = m (record { world = w.controller; channel = channel }) in
      (
        r.0,
        record { controller = r.1.world; channels = Dict.insert w.channels endpoint r.1.channel },
      )

-- A proxy that has logged in with an access key.
abbrev pub logged_in_as : {S : Type 0} → String → Authenticator S
logged_in_as key = record {
  login = pure tt;
  logout = pure tt;
  ping = pure ("PONG", pos 0);
  get_session = λ s. record { access_key = some key; uid = some key };
  is_authenticated = λ s. true;
}

module _ {S : Type 0} where
  abbrev unreachable : {A : Type 0} → Exec S String A
  unreachable = fail "unreachable"

  abbrev no_router : Router S
  no_router = record {
    initialize = unreachable;
    init_conversation = λ _ _. unreachable;
    get_route = λ _ _. unreachable;
    redeem = λ _ _ _. unreachable;
  }

  abbrev no_informer : Informer S
  no_informer = record { initialize = unreachable; get_status = λ _. unreachable }

  abbrev no_lander : Lander S
  no_lander = record { initialize = unreachable; send_message = λ _ _ _ _. unreachable }

  abbrev no_proxy : Proxy S
  no_proxy = record { initialize = unreachable; send_command = λ _ _ _ _. unreachable }

module _ (t : Texts) (proxies : String → Option String) where
  abbrev pub router : Draw → Router Controller
  router d = route_client d.now d.conversation_uuid d.uuid d.choose t.show t.lost

  abbrev pub lifted : Router Controller → Router World
  lifted r = record {
    initialize = at_controller r.initialize;
    init_conversation = λ key recipient. at_controller (r.init_conversation key recipient);
    get_route = λ id key. at_controller (r.get_route id key);
    redeem = λ id key nonce. at_controller (r.redeem id key nonce);
  }

  -- The landing service of the client at an endpoint.
  abbrev pub receive_there : Draw → String → List TextMessage → TextRequest → Exec World Status Unit
  receive_there d endpoint channel request =
      at_client endpoint channel (receive (router d) t.from_utf8_lossy d.now request)

  -- The client that an endpoint leads to, if one listens there.
  abbrev pub lander_at : Draw → String → Lander World
  lander_at d endpoint = record {
    initialize = λ w. elim (Dict.get w.channels endpoint) [
      | none ↦ (err "unreachable", w)
      | some channel ↦ (ok tt, w)
    ];
    send_message = λ id key nonce content w. elim (Dict.get w.channels endpoint) [
      | none ↦ (err "unreachable", w)
      | some channel ↦
          (landing_client t.show t.lost (receive_there d endpoint channel)).send_message id key
            nonce content w
    ];
  }

  -- The clients that a component makes. Each visit of the controller takes one draw, for the
  -- component itself and for those that it calls on.
  unfoldable pub network : List Draw → Factories World String
  network [] = record {
    get_router = no_router;
    get_informer = no_informer;
    get_lander = λ _ _ _. no_lander;
    get_proxy = λ _ _ _. no_proxy;
  }
  network (d ∷ ds) = record {
    get_router = lifted (router d);
    get_informer =
        info_client t.show t.lost (λ key. at_controller (network_status t.version d.now key));
    get_lander = λ endpoint _ _. lander_at d endpoint;
    get_proxy = λ endpoint _ _. elim (proxies endpoint) [
      | none ↦ no_proxy
      | some key ↦
          proxy_client t.show t.lost
            (execute_command t.uris (network ds) (logged_in_as key) t.debug)
    ];
  }
