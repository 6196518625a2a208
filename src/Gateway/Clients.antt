-- ===== src/Gateway/Clients.antt =====
-- The traits of gateway/src/route_client.rs and proxy_client.rs and of proxy/src/clients: gRPC clients
-- as actions on the state of whatever they reach, with the error's text where they fail.
use fuzzy_chat.Prelude.{ℕ, zero, suc, String, Option, none, some, List, Exec}
use fuzzy_chat.Prelude.Int.{ℤ, pos}
use fuzzy_chat.Controller.Models.{RouteResponse, RedeemResponse, StatusResponse}

-- `InitResponse` has one field, the id of the conversation.
pub record Router (S : Type 0) : Type 0 where
  pub initialize : Exec S String Unit
  pub init_conversation : String → String → Exec S String String
  pub get_route : String → String → Exec S String RouteResponse
  pub redeem : String → String → String → Exec S String RedeemResponse

pub record Informer (S : Type 0) : Type 0 where
  pub initialize : Exec S String Unit
  pub get_status : String → Exec S String StatusResponse

-- `send_message`, of a conversation's id, an access key, a nonce and a content
pub record Lander (S : Type 0) : Type 0 where
  pub initialize : Exec S String Unit
  pub send_message : String → String → String → List ℕ → Exec S String Unit

pub data CommandType : Type 0 where
  unknown send status : CommandType

pub record CommandRequest : Type 0 where
  pub conversation_id : String
  pub nonce : String
  pub command : ℤ
  pub content : Option (List ℕ)

-- `CommandType::try_from`
unfoldable pub command_type : ℤ → Option CommandType
command_type (pos zero) = some CommandType.unknown
command_type (pos (suc zero)) = some CommandType.send
command_type (pos (suc (suc zero))) = some CommandType.status
command_type _ = none

-- `i32::from`
unfoldable pub command_number : CommandType → ℤ
command_number CommandType.unknown = pos 0
command_number CommandType.send = pos 1
command_number CommandType.status = pos 2

-- `CommandResponse` has one field, `result`.
pub record Proxy (S : Type 0) : Type 0 where
  pub initialize : Exec S String Unit
  pub send_command : String → String → CommandType → List ℕ → Exec S String (Option String)

-- The factories: a `Lander` or a `Proxy` is made of an endpoint, a public key and a domain name.
pub record Factories (S Uri : Type 0) : Type 0 where
  pub get_router : Router S
  pub get_informer : Informer S
  pub get_lander : Uri → List ℕ → String → Lander S
  pub get_proxy : Uri → List ℕ → String → Proxy S
