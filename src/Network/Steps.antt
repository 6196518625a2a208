-- ===== src/Network/Steps.antt =====
-- A proxy's commands and a client's message in steps, over any clients that answer.
use Prim.Native.String as Text
use fuzzy_chat.Prelude.{
  ℕ, ◌%◌, ◌^◌, String, ◌≡◌, true, false, some, ok, arith, List, [], Option, Status,
}
use fuzzy_chat.Prelude.Int.{pos}
use fuzzy_chat.Controller.Models.{RouteResponse, RedeemResponse, StatusResponse}
use fuzzy_chat.Crosscutting.Endpoint.{UriText, to_https_endpoint, get_public_endpoint}
use fuzzy_chat.Gateway.Clients.{Factories, CommandType, command_type}
use fuzzy_chat.Gateway.Session.{Authenticator}
use fuzzy_chat.Proxy.Service.{
  redeem, send, land_command, route_command, route_settings, check_authentication, run_command,
  get_status, execute_command,
}

module _ {S Uri : Type 0} (uris : UriText Uri) (f : Factories S Uri) where
  redeem_steps :
      (id key nonce : String) (r : RedeemResponse) (a b : S)
      → f.get_router.initialize a ≡ (ok tt, a)
      → f.get_router.redeem id key nonce a ≡ (ok r, b)
      → redeem uris f id key nonce a ≡ (ok tt, b)
  unfolding redeem
  redeem_steps id key nonce r a b i e = ground (arith, i, e)

  -- A command to send is answered when its redemption and its sending are.
  pub execute_steps :
      (auth : Authenticator S) (debug : StatusResponse → String) (id key nonce : String)
      (content : List ℕ) (r : RedeemResponse) (a b c : S)
      → auth.is_authenticated a ≡ true
      → (auth.get_session a).access_key ≡ some key
      → f.get_router.initialize a ≡ (ok tt, a)
      → f.get_router.redeem id key nonce a ≡ (ok r, b)
      → send uris f id key content b ≡ (ok tt, c)
      → execute_command uris f auth debug
          (record { conversation_id = id; nonce = nonce; command = pos 1; content = some content })
          a
        ≡ (ok (some "Message sent"), c)
  unfolding execute_command check_authentication run_command command_type
  execute_steps auth debug id key nonce content r a b c l k i e s =
      ground (arith, l, k, redeem_steps id key nonce r a b i e, s)

  -- A command for the status is answered when its redemption and the informer are.
  pub status_steps :
      (auth : Authenticator S) (debug : StatusResponse → String) (id key nonce : String)
      (r : RedeemResponse) (answer : StatusResponse) (a b c : S)
      → auth.is_authenticated a ≡ true
      → (auth.get_session a).access_key ≡ some key
      → f.get_router.initialize a ≡ (ok tt, a)
      → f.get_router.redeem id key nonce a ≡ (ok r, b)
      → f.get_informer.initialize b ≡ (ok tt, b)
      → f.get_informer.get_status key b ≡ (ok answer, c)
      → execute_command uris f auth debug
          (record { conversation_id = id; nonce = nonce; command = pos 2; content = some [] })
          a
        ≡ (ok (some (Text.◌++◌ "Status: " (debug answer))), c)
  unfolding execute_command check_authentication run_command command_type get_status
  status_steps auth debug id key nonce r answer a b c l k i e j s =
      ground (arith, l, k, redeem_steps id key nonce r a b i e, j, s)

  module _ (id key : String) (content : List ℕ) (route : RouteResponse) (a b c : S) (uri : Uri)
      (i : f.get_router.initialize a ≡ (ok tt, a))
      (e : f.get_router.get_route id key a ≡ (ok route, b))
      (small : route.port_number % 2 ^ 16 ≡ route.port_number)
      (u : to_https_endpoint uris route.ip_address route.port_number ≡ ok uri) where
    endpoint_known : get_public_endpoint uris {E = Status} (route_settings route) ≡ ok uri
    unfolding get_public_endpoint
    endpoint_known = rw small (ground (arith, u))

    -- A message is sent on when the proxy of the route answers.
    pub send_on_steps :
        (x : Option String)
        → route.end_route ≡ false
        → (f.get_proxy uri route.public_key route.domain_name).initialize b ≡ (ok tt, b)
        → (f.get_proxy uri route.public_key route.domain_name).send_command id route.nonce
            CommandType.send content b
          ≡ (ok x, c)
        → send uris f id key content a ≡ (ok tt, c)
    unfolding send route_command
    send_on_steps x g p q = ground (arith, i, e, endpoint_known, g, p, q)

    -- It is sent to its recipient when the client of the route answers.
    pub send_end_steps :
        route.end_route ≡ true
        → (f.get_lander uri route.public_key route.domain_name).initialize b ≡ (ok tt, b)
        → (f.get_lander uri route.public_key route.domain_name).send_message id key route.nonce
            content b
          ≡ (ok tt, c)
        → send uris f id key content a ≡ (ok tt, c)
    unfolding send land_command
    send_end_steps g p q = ground (arith, i, e, endpoint_known, g, p, q)
