-- ===== src/Gateway/Channels/Proxy.antt =====
-- `ProxyClient` of gateway/src/proxy_client.rs, from its making on.
use fuzzy_chat.Prelude.{ℕ, String, Option, none, some, List, Exec, ok, err, ◌>>=◌}
use fuzzy_chat.Gateway.Clients
use fuzzy_chat.Gateway.Clients.{CommandType}
use fuzzy_chat.Gateway.Channels.{Transport, Holding, reaching, open_channel}

pub record ProxyClient (Uri Channel : Type 0) : Type 0 where
  pub endpoint : Uri
  pub public_key : List ℕ
  pub domain_name : String
  pub client : Option Channel

-- `ProxyClient::new`, and `ProxyClientFactory::get_proxy`
unfoldable pub get_proxy : {Uri Channel : Type 0} → Uri → List ℕ → String → ProxyClient Uri Channel
get_proxy endpoint public_key domain_name = record {
  endpoint = endpoint;
  public_key = public_key;
  domain_name = domain_name;
  client = none;
}

module _ {S Uri Endpoint Channel : Type 0} where
  unfoldable pub initialize :
      Transport S Uri Endpoint Channel → Exec (Holding (ProxyClient Uri Channel) S) String Unit
  unfolding open_channel
  initialize t h =
      (do
        channel ←
            reaching (open_channel t h.client.endpoint h.client.public_key h.client.domain_name)
        λ k. (ok tt, record k { client = record k.client { client = some channel } }))
        h

module _ {S Uri Channel : Type 0} where
  -- `service` is what the stub does over a channel.
  unfoldable pub send_command :
      (Channel → Clients.Proxy S)
      → String
      → String
      → CommandType
      → List ℕ
      → Exec (Holding (ProxyClient Uri Channel) S) String (Option String)
  send_command service conversation_id nonce command content h = elim h.client.client [
    | none ↦ (err "Client not initialized", h)
    | some channel ↦
        reaching ((service channel).send_command conversation_id nonce command content) h
  ]

module _ {S Uri Endpoint Channel : Type 0} where
  -- The client as the trait has it.
  unfoldable pub proxy :
      Transport S Uri Endpoint Channel
      → (Channel → Clients.Proxy S)
      → Clients.Proxy (Holding (ProxyClient Uri Channel) S)
  unfolding initialize send_command
  proxy t service = record { initialize = initialize t; send_command = send_command service }
