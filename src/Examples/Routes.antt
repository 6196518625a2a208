-- ===== src/Examples/Routes.antt =====
-- Hops and redemptions.
use fuzzy_chat.Prelude.{
  ℕ, refl, [], none, some, ok, true, here, ◌≡◌, length, ◌∷◌, get_elem?, ◌⊎◌, ◌+◌, ◌<◌, false, ◌≢◌,
  is_ok, arith, ap, String, List, if◌then◌else◌, ◌==◌, Outcome, Status,
}
use fuzzy_chat.Prelude.Dict
use fuzzy_chat.Controller.Models.{SessionInfo, RouteResponse}
use fuzzy_chat.Controller.Storage.Sessions
use fuzzy_chat.Controller.Routing.Strategy.{random_next_route}
use fuzzy_chat.Controller.Routing.Strategy.Choice.{IsChoice, random_next_route_lem}
use fuzzy_chat.Controller.Services.Routes.{route, redeem}
use fuzzy_chat.Controller.Routing.{redeem_route, redeem_route_amid}
use fuzzy_chat.Controller.Services.Routes.Stored.{Stored, route_stores}
use fuzzy_chat.Controller.Services.Guards.Facts.{touch}
use fuzzy_chat.Controller.Services.Routes.Hops.{Ready, answer, route_final, hopped, route_hop}
use fuzzy_chat.Examples.States.{demo, alice, relay, other_relay, fresh_talk, late_talk, first, hop}
use fuzzy_chat.Controller.Storage.Expiration.{wrap}
use fuzzy_chat.Controller.State.{Controller}
use fuzzy_chat.Controller.Storage.Sessions.Lookup.{IsOtherProxy}
use fuzzy_chat.Controller.Services.Routes.Redeeming.{
  spent, redeem_once, redeem_ends, redeem_hop, redeem_route-race, Redemption, redeem_all,
}

pub first-IsChoice : IsChoice first
first-IsChoice = record { of_nil = refl; of_cons = λ n ns. (n, refl, here refl) }

random_next_route_lem_example :
    (i : ℕ) × (q : SessionInfo) × (random_next_route first fresh_talk (relay ∷ other_relay ∷ [])
      ≡ ok (some q))
    × (get_elem? (relay ∷ other_relay ∷ []) i ≡ some q)
    × ((other_relay ∷ [] ≡ []) ⊎ (i + 1 < 2))
random_next_route_lem_example =
    random_next_route_lem first first-IsChoice fresh_talk relay (other_relay ∷ [])

unfoldable pub late : Ready "ka" "c3" demo
unfolding Dict.get Dict.insert Dict.empty
late = record {
  session = wrap 0 alice 10000;
  has_session = refl;
  conversation = wrap 0 late_talk 60000;
  has_conversation = refl;
  random = refl;
}

unfoldable pub early : Ready "ka" "c0" demo
unfolding Dict.get Dict.insert Dict.empty
early = record {
  session = wrap 0 alice 10000;
  has_session = refl;
  conversation = wrap 0 fresh_talk 60000;
  has_conversation = refl;
  random = refl;
}

pub unused : Dict.get demo.route_manager.routes "n9" ≡ none
unfolding Dict.get Dict.insert Dict.empty
unused = refl

abbrev pub touched : Controller
touched = touch 7 "ka" (wrap 0 alice 10000) demo

pub reachable : Sessions.get_client "alice" touched.session_manager ≡ some alice
unfolding Sessions.get_client Dict.get Dict.insert Dict.empty
reachable = refl

-- The conversation has three routes, and the recipient is alice.
answered : (route 7 "n9" first "ka" "c3" demo).0 ≡ ok (answer alice "n9" true)
unfolding late
answered =
    ap (λ (x : Outcome Status RouteResponse × Controller). x.0)
      (route_final 7 "n9" first "ka" "c3" demo late unused alice refl reachable)

route_stores_example :
    Stored 7 "n9" first "ka" "c3" demo late unused
      (answer alice "n9" true)
      (route 7 "n9" first "ka" "c3" demo).1
route_stores_example =
    route_stores 7 "n9" first "ka" "c3" demo late unused first-IsChoice (answer alice "n9" true)
      answered

pub not_three : length fresh_talk.routes ≢ 3
not_three e = omega arith

pub offered : Sessions.get_proxies "ka" touched.session_manager ≡ some (other_relay ∷ relay ∷ [])
unfolding Sessions.get_proxies Dict.entries Dict.get Dict.insert Dict.empty
offered = refl

route_hop_example :
    (q : SessionInfo) × IsOtherProxy "ka" touched.session_manager q
    × (route 7 "n9" first "ka" "c0" demo
        ≡ (ok (answer q "n9" false), hopped 7 "n9" first "ka" "c0" demo early unused q false))
unfolding early
route_hop_example =
    route_hop 7 "n9" first "ka" "c0" demo early unused first-IsChoice other_relay (relay ∷ [])
      not_three offered

abbrev no_clients : Controller
no_clients = record demo {
  session_manager = record demo.session_manager { clients = Dict.empty; proxies = Dict.empty };
}

late_alone : Ready "ka" "c3" no_clients
unfolding Dict.get Dict.insert Dict.empty
late_alone = record {
  session = wrap 0 alice 10000;
  has_session = refl;
  conversation = wrap 0 late_talk 60000;
  has_conversation = refl;
  random = refl;
}

early_alone : Ready "ka" "c0" no_clients
unfolding Dict.get Dict.insert Dict.empty
early_alone = record {
  session = wrap 0 alice 10000;
  has_session = refl;
  conversation = wrap 0 fresh_talk 60000;
  has_conversation = refl;
  random = refl;
}

abbrev touched_alone : Controller
touched_alone = touch 7 "ka" (wrap 0 alice 10000) no_clients

nobody : Sessions.get_client "alice" touched_alone.session_manager ≡ none
unfolding Sessions.get_client Dict.get Dict.insert Dict.empty
nobody = refl

no_relays : Sessions.get_proxies "ka" touched_alone.session_manager ≡ none
unfolding Sessions.get_proxies Dict.entries Dict.get Dict.insert Dict.empty
no_relays = refl

pub client_session : Dict.get demo.session_manager.sessions "ka" ≡ some (wrap 0 alice 10000)
unfolding Dict.get Dict.insert Dict.empty
client_session = refl

pub open_talk : Dict.get demo.route_manager.conversations "c3" ≡ some (wrap 0 late_talk 60000)
unfolding Dict.get Dict.insert Dict.empty
open_talk = refl

pub last_hop : Dict.get demo.route_manager.routes "n4" ≡ some (wrap 0 (hop "n4" true) 60000)
unfolding Dict.get Dict.insert Dict.empty
last_hop = refl

pub middle_hop : Dict.get demo.route_manager.routes "n3" ≡ some (wrap 0 (hop "n3" false) 60000)
unfolding Dict.get Dict.insert Dict.empty
middle_hop = refl

redeem_ends_example :
    ((redeem 7 "ka" "c3" "n4" demo).0 ≡ ok (record { source_info = some "bob" }))
    × ((j : String)
        → Dict.get (redeem 7 "ka" "c3" "n4" demo).1.route_manager.routes j
          ≡ (if "n4" == j then none else Dict.get demo.route_manager.routes j))
    × ((j : String)
        → Dict.get (redeem 7 "ka" "c3" "n4" demo).1.route_manager.conversations j
          ≡ (if "c3" == j then none else Dict.get demo.route_manager.conversations j))
    × (Dict.get (redeem 7 "ka" "c3" "n4" demo).1.session_manager.sessions "ka"
        ≡ some (record { value = alice; expires_at = 7 + 10000; expiration_time = 10000 }))
redeem_ends_example =
    redeem_ends 7 "ka" "c3" "n4" demo (wrap 0 alice 10000) client_session (wrap 0 late_talk 60000)
      open_talk (wrap 0 (hop "n4" true) 60000) last_hop refl

redeem_route-race_example :
    ((redeem_route "c0" "n4" demo).0 ≡ ok (some (hop "n4" true)))
    × ((redeem_route_amid (λ q. (redeem_route "c0" "n4" q).1) "c3" "n4" demo).0
        ≡ ok (some (hop "n4" true)))
    × (Dict.get
          (redeem_route_amid
            (λ q. (redeem_route "c0" "n4" q).1)
            "c3"
            "n4"
            demo).1.route_manager.routes
          "n4"
        ≡ none)
redeem_route-race_example =
    redeem_route-race "c3" "c0" "n4" demo (wrap 0 (hop "n4" true) 60000) last_hop

redeemed_middle :
    redeem 7 "ka" "c3" "n3" demo ≡ (ok (record { source_info = none }), spent "n3" touched)
redeemed_middle =
    redeem_hop 7 "ka" "c3" "n3" demo (wrap 0 alice 10000) client_session (wrap 0 late_talk 60000)
      open_talk (wrap 0 (hop "n3" false) 60000) middle_hop refl

redeemed : is_ok (redeem 7 "ka" "c3" "n3" demo).0 ≡ true
redeemed = rw redeemed_middle

abbrev between : List Redemption
between =
    record { now = 7; access_key = "ka"; conversation_id = "c3"; nonce = "n3" }
    ∷ record { now = 8; access_key = "ka"; conversation_id = "c3"; nonce = "n4" }
    ∷ []

redeem_once_example :
    is_ok (redeem 8 "kp" "c0" "n3" (redeem_all between (redeem 7 "ka" "c3" "n3" demo).1)).0 ≡ false
redeem_once_example = redeem_once 7 8 "ka" "kp" "c3" "c0" "n3" demo between redeemed
