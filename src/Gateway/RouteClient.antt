-- ===== src/Gateway/RouteClient.antt =====
-- `RouteClient` of gateway/src/route_client.rs, initialized, over a channel that reaches the route
-- service of a controller. The text of a status, by `tonic`, is an argument; `tonic` answers a
-- handler that panics with an error. The uuids are those of a new conversation and of a new nonce.
use fuzzy_chat.Prelude.{ℕ, String, Exec, Outcome, ok, err, panic, Status, pure}
use Prim.Native.String as Text
use fuzzy_chat.Controller.State.{Controller}
use fuzzy_chat.Controller.Routing.Strategy.{Choose}
use fuzzy_chat.Controller.Services.Routes
use fuzzy_chat.Gateway.Clients.{Router}

-- What the caller gets of a handler's result.
abbrev pub answered :
    {A : Type 0} → (Status → String) → String → Outcome Status A → Outcome String A
answered show lost (ok a) = ok a
answered show lost (err e) = err (show e)
answered show lost panic = err lost

abbrev pub reaches : {S A : Type 0} → (Status → String) → String → Exec S Status A → Exec S String A
reaches show lost m s = (answered show lost (m s).0, (m s).1)

unfoldable pub route_client :
    ℕ → String → String → Choose → (Status → String) → String → Router Controller
unfolding Routes.initialize Routes.route Routes.redeem
route_client now conversation_uuid uuid choose to_string lost = record {
  initialize = pure tt;
  init_conversation = λ access_key recipient.
      reaches (λ e. Text.◌++◌ "Impossible to initialize the conversation: " (to_string e)) lost
        (Routes.initialize now conversation_uuid access_key recipient);
  get_route = λ conversation_id access_key.
      reaches (λ e. Text.◌++◌ "Impossible to get a route: " (to_string e)) lost
        (Routes.route now uuid choose access_key conversation_id);
  redeem = λ conversation_id access_key nonce.
      reaches (λ _. "Impossible to redeem a route") "Impossible to redeem a route"
        (Routes.redeem now access_key conversation_id nonce);
}
