-- ===== src/Proxy/Service/Forward.antt =====
-- A proxy over a controller: which commands it refuses.
use fuzzy_chat.Prelude.{ℕ, String, ◌≡◌, false, none, is_ok, arith, Status, Bool-cases, inl, inr}
use fuzzy_chat.Prelude.Dict
use fuzzy_chat.Controller.Models.{StatusResponse}
use fuzzy_chat.Controller.State.{Controller}
use fuzzy_chat.Controller.Routing.Strategy.{Choose}
use fuzzy_chat.Controller.Services.Routes.Redeeming.{redeem_unknown}
use fuzzy_chat.Crosscutting.Endpoint.{UriText}
use fuzzy_chat.Gateway.Clients.{CommandRequest, Factories}
use fuzzy_chat.Gateway.RouteClient.{route_client}
use fuzzy_chat.Gateway.Session.{Authenticator}
use fuzzy_chat.Proxy.Service.{execute_command}
use fuzzy_chat.Proxy.Service.Gate.{execute_command-Admitted}

module _ {Uri : Type 0} (uris : UriText Uri) (others : Factories Controller Uri) (now : ℕ)
    (conversation_uuid uuid : String) (choose : Choose) (show : Status → String)
    (lost : String) where
  -- The clients of a proxy whose router reaches the controller.
  abbrev pub factories : Factories Controller Uri
  factories = record others {
    get_router = route_client now conversation_uuid uuid choose show lost;
  }

  redeem_missing :
      (key id nonce : String) (s : Controller)
      → Dict.get s.route_manager.routes nonce ≡ none
      → is_ok (factories.get_router.redeem id key nonce (factories.get_router.initialize s).1).0
        ≡ false
  unfolding route_client
  redeem_missing key id nonce s e = ground (arith, redeem_unknown now key id nonce s e)

  -- A proxy answers no command whose nonce the controller does not know, any more or at all.
  pub execute_command_unknown :
      (authenticator : Authenticator Controller) (debug : StatusResponse → String)
      (request : CommandRequest) (s : Controller)
      → Dict.get s.route_manager.routes request.nonce ≡ none
      → is_ok (execute_command uris factories authenticator debug request s).0 ≡ false
  execute_command_unknown authenticator debug request s e =
      elim (Bool-cases (is_ok (execute_command uris factories authenticator debug request s).0)) [
        | inr refused ↦ refused
        | inl did ↦
            let (a, _) =
              execute_command-Admitted uris factories authenticator debug request s did in
            let f = redeem_missing a.access_key request.conversation_id request.nonce s e in
            let g = a.redeemed in cc
      ]
