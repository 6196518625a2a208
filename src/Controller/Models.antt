-- ===== src/Controller/Models.antt =====
-- controller/src/models.rs, and the messages of proto/auth.proto, proto/route.proto and
-- proto/info.proto that the services exchange.
use fuzzy_chat.Prelude.{ℕ, String, Bool, List, [], Option}
use fuzzy_chat.Prelude.Int.{ℤ}
use fuzzy_chat.Crosscutting.Component.{ConnectionSettings}
use fuzzy_chat.Crosscutting.Networking.{SocketAddr}

pub record Route : Type 0 where
  pub on_ip_address : String
  pub on_port_number : ℕ
  pub public_key : List ℕ
  pub domain_name : String
  pub nonce : String
  pub end_route : Bool

pub record Conversation : Type 0 where
  pub id : String
  pub sender : String
  pub recipient : String
  pub routing_id : ℕ
  pub routes : List Route

pub record Member : Type 0 where
  pub uid : String
  pub pwd : String

pub record SessionInfo : Type 0 where
  pub access_key : String
  pub uid : String
  pub client_ip : SocketAddr
  pub on_port_number : ℕ
  pub on_ip_address : String
  pub component_type : ℕ
  pub public_key : List ℕ
  pub domain_name : String

-- `SessionInfo::to_connection_settings`
unfoldable pub to_connection_settings : SessionInfo → ConnectionSettings
to_connection_settings s = record {
  ip = s.on_ip_address;
  port = s.on_port_number;
  domain_name = s.domain_name;
  certificate = s.public_key;
}

-- `Conversation::new`
unfoldable pub new_conversation : String → String → String → ℕ → Conversation
new_conversation id sender recipient routing_id = record {
  id = id;
  sender = sender;
  recipient = recipient;
  routing_id = routing_id;
  routes = [];
}

pub record LoginRequest : Type 0 where
  pub uid : String
  pub pwd : String
  pub on_ip : String
  pub on_port : ℕ
  pub public_key : List ℕ
  pub domain_name : String
  pub component_type : ℤ

pub record LoginResponse : Type 0 where
  pub access_key : String
  pub message : String

pub record PingResponse : Type 0 where
  pub status : String
  pub timestamp : ℤ

pub record RouteResponse : Type 0 where
  pub ip_address : String
  pub port_number : ℕ
  pub public_key : List ℕ
  pub domain_name : String
  pub nonce : String
  pub end_route : Bool

-- `SourceInfo` has one field, the sender's uid.
pub record RedeemResponse : Type 0 where
  pub source_info : Option String

pub record StatusResponse : Type 0 where
  pub version : String
  pub connected_proxies : ℕ
  pub connected_clients : ℕ
  pub connected_controllers : ℕ
