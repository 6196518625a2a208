-- ===== src/Gateway/Channels/Route.antt =====
-- `RouteClient` of gateway/src/route_client.rs, from its making on.
use fuzzy_chat.Prelude.{String, Option, none, some, Exec, ok, ◌>>=◌}
use fuzzy_chat.Crosscutting.Endpoint.{UriText}
use fuzzy_chat.Crosscutting.Settings.{System}
use fuzzy_chat.Gateway.Clients.{Router}
use fuzzy_chat.Gateway.Channels.{Transport, Holding, reaching, over, controller_channel}

pub record RouteClient (Channel : Type 0) : Type 0 where
  pub client : Option Channel

-- `RouteClient::default`, and `RouteClientFactory::get_router`
unfoldable pub get_router : {Channel : Type 0} → RouteClient Channel
get_router = record { client = none }

module _ {S Uri Endpoint Channel : Type 0} (t : Transport S Uri Endpoint Channel)
    (uris : UriText Uri) (system : System) where
  unfoldable pub initialize : Exec (Holding (RouteClient Channel) S) String Unit
  unfolding controller_channel
  initialize = do
    channel ← reaching (controller_channel t uris system)
    λ h. (ok tt, record h { client = record { client = some channel } })

  -- The client as the trait has it. `service` is what the stub does over a channel; without one each
  -- method panics.
  unfoldable pub router : (Channel → Router S) → Router (Holding (RouteClient Channel) S)
  unfolding initialize
  router service = record {
    initialize = initialize;
    init_conversation = λ access_key recipient h.
        over h.client.client (λ c. (service c).init_conversation access_key recipient) h;
    get_route =
        λ id access_key h. over h.client.client (λ c. (service c).get_route id access_key) h;
    redeem = λ id access_key nonce h.
        over h.client.client (λ c. (service c).redeem id access_key nonce) h;
  }
