-- ===== src/Gateway/ProxyClient.antt =====
-- `ProxyClient` of gateway/src/proxy_client.rs, initialized, over a channel that reaches the service of
-- a proxy.
use fuzzy_chat.Prelude.{String, Option, some, Exec, Status, pure}
use fuzzy_chat.Gateway.Clients.{Proxy, CommandRequest, command_number}
use fuzzy_chat.Gateway.RouteClient.{reaches}

unfoldable pub proxy_client :
    {S : Type 0}
    → (Status → String)
    → String
    → (CommandRequest → Exec S Status (Option String))
    → Proxy S
unfolding command_number
proxy_client to_string lost execute_command = record {
  initialize = pure tt;
  send_command = λ conversation_id nonce command content. reaches to_string lost (
      execute_command (record {
        conversation_id = conversation_id;
        nonce = nonce;
        command = command_number command;
        content = some content;
      }));
}
