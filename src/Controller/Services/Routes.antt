-- ===== src/Controller/Services/Routes.antt =====
-- controller/src/services/route_service.rs: `RouteServiceImpl`.
pub mod Hops
pub mod Stored
pub mod Redeeming
pub mod Initializing
pub mod Cases
use fuzzy_chat.Prelude.{
  ℕ, String, Bool, true, false, none, some, not_found, internal, status, ok_or, unwrap, lift, fail,
  pure, ◌>>=◌, ◌>>◌, ◌==◌, if◌then◌else◌, if_let,
}
use fuzzy_chat.Controller.Models.{
  SessionInfo, RouteResponse, RedeemResponse, to_connection_settings,
}
use fuzzy_chat.Controller.State.{Handler}
use fuzzy_chat.Controller.Session
use fuzzy_chat.Controller.Routing
use fuzzy_chat.Controller.Routing.Strategy.{Choose}
use fuzzy_chat.Controller.Services.Guards.{check_session, check_conversation}

unfoldable pub handle_route : ℕ → String → String → SessionInfo → Bool → Handler RouteResponse
unfolding Routing.store_route to_connection_settings
handle_route now uuid id session end_route = do
  stored ← Routing.store_route now uuid id (to_connection_settings session) end_route
  nonce ← ok_or (status internal "Failed to store route") stored
  pure (record {
    ip_address = session.on_ip_address;
    port_number = session.on_port_number;
    public_key = session.public_key;
    domain_name = session.domain_name;
    nonce = nonce;
    end_route = end_route;
  })

abbrev controller_uid : String
controller_uid = "controller_uid"

-- Gives the id of the new conversation.
unfoldable pub initialize : ℕ → String → String → String → Handler String
unfolding check_session Session.get_session Routing.initialize
initialize now uuid access_key recipient = do
  check_session now access_key
  found ← Session.get_session now access_key
  session ← unwrap found
  made ←
      Routing.initialize now uuid session.uid
        (if recipient == "" then controller_uid else recipient)
  ok_or (status internal "Failed to initialize conversation") made

unfoldable pub route : ℕ → String → Choose → String → String → Handler RouteResponse
unfolding check_session check_conversation Routing.get_conversation Session.get_client
    Session.get_proxies handle_route
route now uuid choose access_key id = do
  check_session now access_key
  check_conversation id
  found ← Routing.get_conversation id
  conversation ← unwrap found
  final ← lift (Routing.check_for_final_route conversation)
  if final
      then (do
        client ← Session.get_client conversation.recipient
        if_let client (λ session. handle_route now uuid id session true)
            (fail (
              status not_found "Reached final route, no more routes available as no client found")))
      else do
        proxies ← Session.get_proxies access_key
        if_let proxies
            (λ ps. do
              next ← lift (Routing.get_next_route choose conversation ps)
              if_let next (λ session. handle_route now uuid id session false)
                  (fail (status not_found "Next route wasn't found, no more routes available")))
            (fail (status not_found "No proxies found"))

-- The end of a conversation: who sent it, and no more of it.
unfoldable pub finish : String → Handler RedeemResponse
unfolding Routing.get_conversation Routing.finalize
finish id = do
  found ← Routing.get_conversation id
  conversation ← unwrap found
  Routing.finalize id
  pure (record { source_info = some conversation.sender })

unfoldable pub redeem : ℕ → String → String → String → Handler RedeemResponse
unfolding check_session check_conversation Routing.redeem_route
redeem now access_key id nonce = do
  check_session now access_key
  check_conversation id
  redeemed ← Routing.redeem_route id nonce
  if_let redeemed (λ r. if r.end_route then finish id else pure (record { source_info = none }))
      (fail (status internal "Failed to redeem route"))
