-- ===== src/Examples/Delivery.antt =====
-- A client and a proxy over the controller of the examples.
use fuzzy_chat.Prelude.{
  ℕ, refl, [], none, some, ok, panic, true, ◌≡◌, ◌∷◌, false, is_ok, String, List, Status, pure,
  fail,
}
use fuzzy_chat.Prelude.Int.{pos}
use fuzzy_chat.Controller.Models.{StatusResponse}
use fuzzy_chat.Controller.State.{Controller}
use fuzzy_chat.Controller.Storage.Expiration.{wrap}
use fuzzy_chat.Controller.Services.Routes.Redeeming.{ended, spent}
use fuzzy_chat.Crosscutting.Endpoint.{UriText}
use fuzzy_chat.Gateway.Clients.{CommandRequest, command_type, Factories}
use fuzzy_chat.Gateway.Session.{Authenticator}
use fuzzy_chat.Client.Landing.{Landing, TextRequest, new_message}
use fuzzy_chat.Client.Landing.Delivery.{
  receive_at, afterwards, receive_once, receive_end, receive_hop,
}
use fuzzy_chat.Controller.Services.Routes.Redeeming.{Redemption}
use fuzzy_chat.Proxy.Service.{execute_command, run_command}
use fuzzy_chat.Proxy.Service.Gate.{Admitted, executed, execute_command-Admitted}
use fuzzy_chat.Examples.States.{demo, alice, late_talk, first, hop}
use fuzzy_chat.Examples.Routes.{touched, client_session, open_talk, last_hop, middle_hop}

abbrev pub shown : Status → String
shown e = e.message

abbrev lossy : List ℕ → String
lossy bytes = "text"

abbrev inbox : Landing Controller
inbox = record { world = demo; channel = [] }

abbrev asks : String → TextRequest
asks nonce = record { conversation_id = "c3"; access_key = "ka"; nonce = nonce; content = 104 ∷ [] }

received : receive_at "c8" "n9" first shown "lost" lossy 7 (asks "n4") inbox ≡ (
  ok tt,
  record {
    world = ended "c3" (spent "n4" touched);
    channel = record { sender = "bob"; recipient = "myself"; content = "text"; at = 7 } ∷ [];
  },
)
unfolding new_message
received =
    receive_end "c8" "n9" first shown "lost" lossy 7 (asks "n4") inbox (wrap 0 alice 10000)
      client_session (wrap 0 late_talk 60000) open_talk (wrap 0 (hop "n4" true) 60000) last_hop refl

receive_hop_example :
    receive_at "c8" "n9" first shown "lost" lossy 7 (asks "n3") inbox
    ≡ (panic, record inbox { world = spent "n3" touched })
receive_hop_example =
    receive_hop "c8" "n9" first shown "lost" lossy 7 (asks "n3") inbox (wrap 0 alice 10000)
      client_session (wrap 0 late_talk 60000) open_talk (wrap 0 (hop "n3" false) 60000) middle_hop
      refl

accepted : is_ok (receive_at "c8" "n9" first shown "lost" lossy 7 (asks "n4") inbox).0 ≡ true
accepted = rw received

abbrev others : List Redemption
others =
    record { now = 7; access_key = "kp"; conversation_id = "c0"; nonce = "n3" }
    ∷ record { now = 8; access_key = "ka"; conversation_id = "c3"; nonce = "n4" }
    ∷ []

receive_once_example :
    (is_ok
        (receive_at "c8" "n9" first shown "lost" lossy 8 (asks "n4") (
          afterwards others
            (receive_at "c8" "n9" first shown "lost" lossy 7 (asks "n4") inbox).1)).0
      ≡ false)
    × ((receive_at "c8" "n9" first shown "lost" lossy 8 (asks "n4") (
          afterwards others
            (receive_at "c8" "n9" first shown "lost" lossy 7 (asks "n4") inbox).1)).1.channel
        ≡ (receive_at "c8" "n9" first shown "lost" lossy 7 (asks "n4") inbox).1.channel)
receive_once_example =
    receive_once "c8" "n9" first shown "lost" lossy 7 8 (asks "n4") (asks "n4") inbox others
      accepted refl

-- The texts of ports are all alike, and every text is a `Uri`.
abbrev pub uris : UriText String
uris = record { to_string = λ n. "5002"; try_from = λ text. some text }

-- Clients that reach nobody.
abbrev pub nobody : {S : Type 0} → Factories S String
nobody = record {
  get_router = record {
    initialize = pure tt;
    init_conversation = λ key recipient. fail "offline";
    get_route = λ id key. fail "offline";
    redeem = λ id key nonce. fail "offline";
  };
  get_informer = record { initialize = pure tt; get_status = λ key. fail "offline" };
  get_lander = λ uri key domain. record {
    initialize = pure tt;
    send_message = λ id key nonce content. pure tt;
  };
  get_proxy = λ uri key domain. record {
    initialize = pure tt;
    send_command = λ id nonce type content. pure none;
  };
}

-- A proxy that is logged in with the access key "kp".
abbrev online : {S : Type 0} → Authenticator S
online = record {
  login = pure tt;
  logout = pure tt;
  ping = pure ("PONG", pos 0);
  get_session = λ s. record { access_key = some "kp"; uid = some "relay" };
  is_authenticated = λ s. true;
}

abbrev pub debug : StatusResponse → String
debug r = r.version

abbrev pub command : String → CommandRequest
command nonce = record { conversation_id = "c3"; nonce = nonce; command = pos 0; content = none }

-- A router that redeems everything.
abbrev anybody : Factories Controller String
anybody = record nobody {
  get_router = record {
    initialize = pure tt;
    init_conversation = λ key recipient. fail "offline";
    get_route = λ id key. fail "offline";
    redeem = λ id key nonce. pure (record { source_info = none });
  };
}

execute_command-Admitted_example :
    (a : Admitted uris anybody online debug (command "n3") demo) × (executed uris anybody online
        debug
        (command "n3")
        demo
      ≡ run_command uris anybody online debug (command_type (pos 0)) "c3" a.access_key [] demo)
unfolding execute_command
execute_command-Admitted_example =
    execute_command-Admitted uris anybody online debug (command "n3") demo refl
