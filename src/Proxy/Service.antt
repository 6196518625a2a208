-- ===== src/Proxy/Service.antt =====
-- proxy/src/services/proxy_service.rs: `ProxyServiceImpl`. The clients that it makes are arguments, and
-- act on the state of whatever they reach.
pub mod Gate
pub mod Forward
use fuzzy_chat.Prelude.{
  ℕ, ◌%◌, ◌^◌, String, Bool, not, Option, none, some, List, [], Exec, Status, status, internal,
  unauthenticated, fail, pure, lift, unwrap, unwrap_or, map_err, ◌>>=◌, ◌>>◌, if◌then◌else◌,
}
use Prim.Native.String as Text
use fuzzy_chat.Crosscutting.Component.{ConnectionSettings}
use fuzzy_chat.Crosscutting.Endpoint.{UriText, get_public_endpoint}
use fuzzy_chat.Controller.Models.{RouteResponse, StatusResponse}
use fuzzy_chat.Gateway.Clients.{Factories, CommandType, CommandRequest, command_type}
use fuzzy_chat.Gateway.Session.{Authenticator}

-- The settings that `send` makes of a route, its port reduced to 16 bits.
abbrev pub route_settings : RouteResponse → ConnectionSettings
route_settings route = record {
  ip = route.ip_address;
  port = route.port_number % 2 ^ 16;
  domain_name = route.domain_name;
  certificate = route.public_key;
}

module _ {S Uri : Type 0} (uris : UriText Uri) (factories : Factories S Uri) where
  unfoldable pub redeem : String → String → String → Exec S Status Unit
  redeem conversation_id access_key nonce = do
    map_err (λ _. status internal "Failed to initialize the router") factories.get_router.initialize
    map_err (λ _. status internal "Failed to redeem route")
        (factories.get_router.redeem conversation_id access_key nonce)
    pure tt

  unfoldable pub get_status : String → Exec S Status StatusResponse
  get_status access_key = do
    map_err (λ _. status internal "Failed to initialize the informer")
        factories.get_informer.initialize
    map_err (λ _. status internal "Failed to get status")
        (factories.get_informer.get_status access_key)

  unfoldable pub land_command :
      ConnectionSettings → String → String → String → List ℕ → Exec S Status Unit
  unfolding get_public_endpoint
  land_command settings conversation_id nonce access_key content = do
    endpoint ← lift (get_public_endpoint uris settings)
    let lander = factories.get_lander endpoint settings.certificate settings.domain_name
    map_err (λ e. status internal (Text.◌++◌ "Impossible to initialize landing client: " e))
        lander.initialize
    map_err (λ e. status internal (Text.◌++◌ "Failed to deliver the message: " e))
        (lander.send_message conversation_id access_key nonce content)

  unfoldable pub route_command : ConnectionSettings → String → String → List ℕ → Exec S Status Unit
  unfolding get_public_endpoint
  route_command settings conversation_id nonce content = do
    endpoint ← lift (get_public_endpoint uris settings)
    let proxy = factories.get_proxy endpoint settings.certificate settings.domain_name
    map_err (λ e. status internal (Text.◌++◌ "Impossible to initialize proxy client: " e))
        proxy.initialize
    map_err (λ e. status internal (Text.◌++◌ "Failed to route command: " e))
        (proxy.send_command conversation_id nonce CommandType.send content)
    pure tt

  -- The endpoint that is logged here is the one that both branches make again.
  unfoldable pub send : String → String → List ℕ → Exec S Status Unit
  unfolding land_command route_command
  send conversation_id access_key content = do
    map_err (λ _. status internal "Failed to initialize the router") factories.get_router.initialize
    route ←
        map_err (λ _. status internal "Failed to get route")
          (factories.get_router.get_route conversation_id access_key)
    if route.end_route
        then land_command (route_settings route) conversation_id route.nonce access_key content
        else route_command (route_settings route) conversation_id route.nonce content

  module _ (authenticator : Authenticator S) (debug : StatusResponse → String) where
    unfoldable pub check_authentication : Exec S Status String
    check_authentication s =
        (if not (authenticator.is_authenticated s)
            then fail (status unauthenticated "Not authenticated")
            else unwrap (authenticator.get_session s).access_key)
          s

    -- The result of a command, by its type.
    unfoldable pub run_command :
        Option CommandType → String → String → List ℕ → Exec S Status (Option String)
    unfolding get_status send
    run_command (some CommandType.status) conversation_id access_key content = do
      answer ← get_status access_key
      pure (some (Text.◌++◌ "Status: " (debug answer)))
    run_command (some CommandType.send) conversation_id access_key content = do
      send conversation_id access_key content
      pure (some "Message sent")
    run_command _ conversation_id access_key content = pure none

    unfoldable pub execute_command : CommandRequest → Exec S Status (Option String)
    unfolding check_authentication redeem run_command command_type
    execute_command request = do
      access_key ← check_authentication
      redeem request.conversation_id access_key request.nonce
      run_command (command_type request.command) request.conversation_id access_key
          (unwrap_or request.content [])
