-- ===== src/Proxy/Clients/Channels.antt =====
-- `InfoClient` and `LandingClient` of proxy/src/clients, from their making on.
use fuzzy_chat.Prelude.{ℕ, String, Option, none, some, List, Exec, ok, ◌>>=◌}
use fuzzy_chat.Crosscutting.Endpoint.{UriText}
use fuzzy_chat.Crosscutting.Settings.{System}
use fuzzy_chat.Gateway.Clients.{Informer, Lander}
use fuzzy_chat.Gateway.Channels.{
  Transport, Holding, reaching, over, open_channel, controller_channel,
}

pub record InfoClient (Channel : Type 0) : Type 0 where
  pub client : Option Channel

-- `InfoClient::default`, and `InfoClientFactory::get_informer`
unfoldable pub get_informer : {Channel : Type 0} → InfoClient Channel
get_informer = record { client = none }

pub record LandingClient (Uri Channel : Type 0) : Type 0 where
  pub endpoint : Uri
  pub public_key : List ℕ
  pub domain_name : String
  pub client : Option Channel

-- `LandingClient::new`, and `LandingClientFactory::get_lander`
unfoldable pub get_lander :
    {Uri Channel : Type 0} → Uri → List ℕ → String → LandingClient Uri Channel
get_lander endpoint public_key domain_name = record {
  endpoint = endpoint;
  public_key = public_key;
  domain_name = domain_name;
  client = none;
}

module _ {S Uri Endpoint Channel : Type 0} (t : Transport S Uri Endpoint Channel) where
  unfoldable pub initialize_informer :
      UriText Uri → System → Exec (Holding (InfoClient Channel) S) String Unit
  unfolding controller_channel
  initialize_informer uris system = do
    channel ← reaching (controller_channel t uris system)
    λ h. (ok tt, record h { client = record { client = some channel } })

  -- The clients as the traits have them. `service` is what a stub does over a channel; without one
  -- its method panics.
  unfoldable pub informer :
      UriText Uri → System → (Channel → Informer S) → Informer (Holding (InfoClient Channel) S)
  unfolding initialize_informer
  informer uris system service = record {
    initialize = initialize_informer uris system;
    get_status = λ access_key h. over h.client.client (λ c. (service c).get_status access_key) h;
  }

  unfoldable pub initialize_lander : Exec (Holding (LandingClient Uri Channel) S) String Unit
  unfolding open_channel
  initialize_lander h =
      (do
        channel ←
            reaching (open_channel t h.client.endpoint h.client.public_key h.client.domain_name)
        λ k. (ok tt, record k { client = record k.client { client = some channel } }))
        h

  unfoldable pub lander : (Channel → Lander S) → Lander (Holding (LandingClient Uri Channel) S)
  unfolding initialize_lander
  lander service = record {
    initialize = initialize_lander;
    send_message = λ id access_key nonce content h.
        over h.client.client (λ c. (service c).send_message id access_key nonce content) h;
  }
