-- ===== src/Proxy/Service/Gate.antt =====
-- A proxy executes no command before it has redeemed the command's nonce.
use fuzzy_chat.Prelude.{
  String, Option, [], ◌≡◌, inl, inr, true, false, some, is_ok, err, arith, Status, status,
  unauthenticated, unwrap_or, Outcome, Outcome-cases, Bool-cases, Option-cases,
}
use fuzzy_chat.Controller.Models.{StatusResponse, RedeemResponse}
use fuzzy_chat.Crosscutting.Endpoint.{UriText}
use fuzzy_chat.Gateway.Clients.{CommandRequest, command_type, Factories}
use fuzzy_chat.Gateway.Session.{Authenticator}
use fuzzy_chat.Proxy.Service.{execute_command, redeem, run_command, check_authentication}

module _ {S Uri : Type 0} (uris : UriText Uri) (factories : Factories S Uri)
    (authenticator : Authenticator S) (debug : StatusResponse → String) where
  abbrev pub executed : CommandRequest → S → Outcome Status (Option String) × S
  executed = execute_command uris factories authenticator debug

  -- What the router has answered after its initialization, to the redemption of the nonce.
  abbrev pub redeemed_by : CommandRequest → String → S → Outcome String RedeemResponse × S
  redeemed_by request access_key s =
      factories.get_router.redeem request.conversation_id access_key request.nonce
        (factories.get_router.initialize s).1

  -- What it has done when it runs a command: it is logged in, and its router has been initialized and
  -- has redeemed the nonce.
  pub record Admitted (request : CommandRequest) (s : S) : Type 0 where
    pub access_key : String
    pub logged_in : authenticator.is_authenticated s ≡ true
    pub has_key : (authenticator.get_session s).access_key ≡ some access_key
    pub initialized : is_ok (factories.get_router.initialize s).0 ≡ true
    pub redeemed : is_ok (redeemed_by request access_key s).0 ≡ true

  -- A command that is answered is one of a proxy that is logged in, and whose router, initialized, has
  -- answered the redemption of the nonce with the proxy's own access key; and the answer is that of the
  -- command, run in the state that the router has left.
  pub execute_command-Admitted :
      (request : CommandRequest) (s : S)
      → is_ok (executed request s).0 ≡ true
      → (a : Admitted request s) × (executed request s
          ≡ run_command uris factories authenticator debug
              (command_type request.command)
              request.conversation_id
              a.access_key
              (unwrap_or request.content [])
              (redeemed_by request a.access_key s).1)
  unfolding execute_command check_authentication redeem
  execute_command-Admitted request s h = elim (Bool-cases (authenticator.is_authenticated s)) [
    | inr out ↦ ground arith
    | inl logged ↦ elim (Option-cases (authenticator.get_session s).access_key) [
      | inl e ↦ ground arith
      | inr (key, e) ↦ elim (Outcome-cases (factories.get_router.initialize s).0) [
        | inr bad ↦ ground arith
        | inl (ready, i) ↦ elim (Outcome-cases (redeemed_by request key s).0) [
          | inr bad ↦ ground arith
          | inl (u, good) ↦ (
            record {
              access_key = key;
              logged_in = logged;
              has_key = e;
              initialized = ground arith;
              redeemed = ground arith;
            },
            ground arith,
          )
        ]
      ]
    ]
  ]

  -- A proxy that is not logged in refuses every command and reaches nobody.
  pub execute_command_logged_out :
      (request : CommandRequest) (s : S)
      → authenticator.is_authenticated s ≡ false
      → executed request s ≡ (err (status unauthenticated "Not authenticated"), s)
  unfolding execute_command check_authentication
  execute_command_logged_out request s e = ground arith

  -- A proxy that is logged in, and whose redemption is not answered, does not answer the command, and
  -- does nothing after the redemption.
  pub execute_command_refused :
      (request : CommandRequest) (key : String) (s : S)
      → authenticator.is_authenticated s ≡ true
      → (authenticator.get_session s).access_key ≡ some key
      → is_ok (redeem uris factories request.conversation_id key request.nonce s).0 ≡ false
      → (is_ok (executed request s).0 ≡ false)
        × ((executed request s).1
            ≡ (redeem uris factories request.conversation_id key request.nonce s).1)
  unfolding execute_command check_authentication
  execute_command_refused request key s e f h =
      elim (Outcome-cases (redeem uris factories request.conversation_id key request.nonce s).0) [
        | inr bad ↦ ground arith
        | inl (u, good) ↦ ground arith
      ]
