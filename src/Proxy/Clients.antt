-- ===== src/Proxy/Clients.antt =====
-- `LandingClient` and `InfoClient` of proxy/src/clients, initialized, over channels that reach the
-- landing service of a client and the information service of a controller.
pub mod Channels
pub mod Connected
use fuzzy_chat.Prelude.{String, Exec, Status, pure}
use fuzzy_chat.Controller.Models.{StatusResponse}
use fuzzy_chat.Client.Landing.{TextRequest}
use fuzzy_chat.Gateway.Clients.{Lander, Informer}
use fuzzy_chat.Gateway.RouteClient.{reaches}

module _ {S : Type 0} (to_string : Status → String) (lost : String) where
  unfoldable pub landing_client : (TextRequest → Exec S Status Unit) → Lander S
  landing_client receive = record {
    initialize = pure tt;
    send_message = λ conversation_id access_key nonce content. reaches to_string lost (
        receive (record {
          conversation_id = conversation_id;
          access_key = access_key;
          nonce = nonce;
          content = content;
        }));
  }

  unfoldable pub info_client : (String → Exec S Status StatusResponse) → Informer S
  info_client status = record {
    initialize = pure tt;
    get_status = λ access_key. reaches to_string lost (status access_key);
  }
