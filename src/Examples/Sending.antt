-- ===== src/Examples/Sending.antt =====
-- The first hop of a message.
use fuzzy_chat.Prelude.{refl, [], ◌∷◌, none, some, ◌≡◌}
use fuzzy_chat.Prelude.Dict
use fuzzy_chat.Controller.Routing.{without_dashes}
use fuzzy_chat.Controller.Storage.Expiration.{wrap}
use fuzzy_chat.Controller.Storage.Sessions
use fuzzy_chat.Controller.Services.Routes.Initializing.{initialized-Ready}
use fuzzy_chat.Client.Commander.FirstHop.{seen_at}
use fuzzy_chat.Examples.States.{demo, alice, relay, other_relay, first}
use fuzzy_chat.Examples.Routes.{client_session, unused}
use fuzzy_chat.Examples.Delivery.{uris, nobody, shown}

new_id : Dict.get demo.route_manager.conversations (without_dashes "c-9") ≡ none
unfolding without_dashes Dict.get Dict.insert Dict.empty
new_id = refl

offered :
    Sessions.get_proxies "ka"
      (seen_at uris nobody 7 "c-9" "n9" first shown "lost" "ka" "bob" demo
        (wrap 0 alice 10000)
        client_session
        new_id
        unused).session_manager
    ≡ some (other_relay ∷ relay ∷ [])
unfolding initialized-Ready Sessions.get_proxies Dict.entries Dict.get Dict.insert Dict.empty
offered = refl
