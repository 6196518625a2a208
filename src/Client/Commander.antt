-- ===== src/Client/Commander.antt =====
-- `Commander` of client/src/command.rs.
pub mod FirstHop
use fuzzy_chat.Prelude.{ℕ, String, Option, List, [], Exec, map_err, lift, pure, ◌>>=◌, ◌>>◌}
use Prim.Native.String as Text
use fuzzy_chat.Crosscutting.Endpoint.{UriText, to_https_endpoint}
use fuzzy_chat.Gateway.Clients.{Factories, CommandType}

pub record Route (Uri : Type 0) : Type 0 where
  pub conversation_id : String
  pub nonce : String
  pub public_key : List ℕ
  pub domain_name : String
  pub uri : Uri

module _ {S Uri : Type 0} (uris : UriText Uri) (factories : Factories S Uri)
    (access_key : String) where
  unfoldable pub initialize : String → Exec S String (Route Uri)
  unfolding to_https_endpoint
  initialize recipient = do
    factories.get_router.initialize
    conversation_id ← factories.get_router.init_conversation access_key recipient
    route ← factories.get_router.get_route conversation_id access_key
    uri ← lift (to_https_endpoint uris route.ip_address route.port_number)
    pure (record {
      conversation_id = conversation_id;
      nonce = route.nonce;
      public_key = route.public_key;
      domain_name = route.domain_name;
      uri = uri;
    })

  -- What `send_message` and `get_status` do with a route. The error is the `Display` of the status
  -- that the source makes, whose text `show_status` gives.
  unfoldable pub command :
      (String → String) → Route Uri → CommandType → List ℕ → Exec S String (Option String)
  command show_status route type content = do
    let proxy = factories.get_proxy route.uri route.public_key route.domain_name
    map_err (λ e. show_status (Text.◌++◌ "Impossible to initialize proxy client: " e))
        proxy.initialize
    proxy.send_command route.conversation_id route.nonce type content

  unfoldable pub send_message : (String → String) → String → List ℕ → Exec S String (Option String)
  unfolding initialize command
  send_message show_status recipient content = do
    route ← initialize recipient
    command show_status route CommandType.send content

  unfoldable pub get_status : (String → String) → Exec S String (Option String)
  unfolding initialize command
  get_status show_status = do route ← initialize ""; command show_status route CommandType.status []
