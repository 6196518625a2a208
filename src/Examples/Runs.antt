-- ===== src/Examples/Runs.antt =====
-- A controller from its start: it reads its members, a client and a proxy log in, and a conversation
-- goes its way.
use fuzzy_chat.Prelude.{
  String, List, [], ◌∷◌, Option, some, none, ok, err, ◌≡◌, refl, arith, eq_iff, ◌==◌, Bool-cases,
  inl, inr, false, ◌≢◌, ◌≤◌, ◌<◌, ◌^◌, if◌then◌else◌,
}
use mathlib.Core.Option.{some-injective}
use fuzzy_chat.Prelude.Int.{pos}
use fuzzy_chat.Prelude.Dict
use fuzzy_chat.Crosscutting.Component.{
  from_i32, from_u8, to_u8, get_connection_settings, get_credentials,
}
use fuzzy_chat.Crosscutting.Endpoint.{get_public_socket_address}
use fuzzy_chat.Crosscutting.Settings.{System, get_env_variable}
use fuzzy_chat.Controller.Membership
use fuzzy_chat.Controller.Models.{
  LoginRequest, RouteResponse, new_conversation, to_connection_settings,
}
use fuzzy_chat.Controller.Routing
use fuzzy_chat.Controller.Runs.{
  Event, seeds, logs_in, initializes, asks_route, announces, blank, after, Reachable, started, next,
}
use fuzzy_chat.Controller.Runs.Safety.{Reachable-Sound, redeem-IsKnown, status_lone, route-port}
use fuzzy_chat.Controller.Runs.Sound.{Sound, IsKnown}
use fuzzy_chat.Controller.Services.Auth.{login, validate_credentials}
use fuzzy_chat.Controller.Services.Info.{network_status, to_u32}
use fuzzy_chat.Controller.Services.Routes.{initialize, route, redeem, handle_route, finish}
use fuzzy_chat.Controller.Services.Guards.{check_session, check_conversation}
use fuzzy_chat.Controller.Routing.Strategy.{
  strategies, get_routing_id, get_strategy, find_strategy, random_route_strategy, random_next_route,
  numbers, range_from,
}
use fuzzy_chat.Controller.Session
use fuzzy_chat.Controller.Startup
use fuzzy_chat.Controller.State.{Controller}
use fuzzy_chat.Controller.Storage.Members
use fuzzy_chat.Controller.Storage.Routes
use fuzzy_chat.Controller.Storage.Sessions
use fuzzy_chat.Controller.Storage.Sessions.Invariant.{Fresh}
use fuzzy_chat.Examples.Startup.{addresses, hub}
use fuzzy_chat.Examples.States.{alice_login, first, home}

abbrev seed_system : System
seed_system = record {
  var = λ name. some "members.csv";
  read = λ path. err "no such file";
  current_dir = none;
  join = λ base name. base;
}

abbrev pub csv : String → Option (List (Option (List String)))
csv path = some (some ("alice" ∷ "secret" ∷ []) ∷ some ("relay" ∷ "hops" ∷ []) ∷ [])

abbrev relay_login : LoginRequest
relay_login = record alice_login { uid = "relay"; pwd = "hops"; component_type = pos 1 }

abbrev seeded : Controller
seeded = after addresses hub (seeds seed_system csv) blank

abbrev with_alice : Controller
with_alice =
    after addresses hub (logs_in 0 "ka" (record { remote_addr = some home; inner = alice_login }))
      seeded

alice_allowed : Fresh "ka" seeded.session_manager
unfolding after Startup.initialize get_env_variable Membership.seed_members_from_csv
    Membership.read_members Membership.set_members Dict.get Dict.empty
alice_allowed = record {
  no_session = refl;
  no_client = λ u e. cc;
  no_controller = λ u e. cc;
  no_proxy = λ u e. cc;
}

distinct_keys : (a b : String) → (a == b) ≡ false → a ≢ b
distinct_keys a b h e = ground (arith, h, e, eq_iff a b)

one_entry :
    (owner k other u : String)
    → k ≢ other
    → ◌≢◌ {A = Option String} (if owner == u then some k else none) (some other)
one_entry owner k other u ne e = elim (Bool-cases (owner == u)) [
  | inl h ↦ ne (some-injective _ _ (ground (arith, h, e)))
  | inr h ↦ ground (arith, h, e)
]

relay_allowed : Fresh "kp" with_alice.session_manager
unfolding after Startup.initialize get_env_variable Membership.seed_members_from_csv
    Membership.read_members Membership.set_members Membership.keep_members Members.set_member login
    validate_credentials Session.set_session Sessions.set_session Sessions.store Sessions.index
    from_i32 to_u8 from_u8 Membership.get_member Members.get_member Dict.insert Dict.get Dict.empty
relay_allowed = record {
  no_session = refl;
  no_client = λ u e. one_entry "alice" "ka" "kp" u (distinct_keys "ka" "kp" refl) e;
  no_controller = λ u e. cc;
  no_proxy = λ u e. cc;
}

abbrev with_relay : Controller
with_relay =
    after addresses hub (logs_in 1 "kp" (record { remote_addr = some home; inner = relay_login }))
      with_alice

-- One request for a route, with its nonce.
abbrev hop_event : String → Event
hop_event nonce = asks_route 3 nonce first "ka" "c"

-- The conversation from alice to herself, and its four hops.
abbrev events : List Event
events =
    initializes 2 "c" "ka" "alice"
    ∷ hop_event "n1"
    ∷ hop_event "n2"
    ∷ hop_event "n3"
    ∷ hop_event "n4"
    ∷ []

abbrev all_after : List Event → Controller → Controller
all_after [] s = s
all_after (e ∷ es) s = all_after es (after addresses hub e s)

abbrev hopped_state : Controller
hopped_state = all_after events with_relay

hopped-Reachable : Reachable addresses hub hopped_state
hopped-Reachable = next _ tt (
    next _ tt (
      next _ tt
        (next _ tt (next _ tt (next _ relay_allowed (next _ alice_allowed (next _ tt started)))))))

last_redeemed : (redeem 4 "ka" "c" "n4" hopped_state).0 ≡ ok (record { source_info = some "alice" })
unfolding after Startup.initialize get_env_variable Membership.seed_members_from_csv
    Membership.read_members Membership.set_members Membership.keep_members Members.set_member login
    validate_credentials Session.set_session Sessions.set_session Sessions.store Sessions.index
    from_i32 to_u8 from_u8 Membership.get_member Members.get_member Dict.insert Dict.get Dict.empty
    initialize route redeem handle_route finish check_session check_conversation Session.get_session
    Sessions.get_session Routing.initialize Routing.without_dashes Routing.set_conversation
    Routes.set_conversation new_conversation strategies get_routing_id Routing.get_conversation
    Routes.get_conversation Routing.check_for_final_route get_strategy find_strategy
    random_route_strategy Session.get_client Sessions.get_client Session.get_proxies
    Sessions.get_proxies Sessions.other_sessions Dict.entries Routing.get_next_route
    random_next_route numbers range_from Routing.store_route Routes.set_route to_connection_settings
    Routing.redeem_route Routes.get_route Routes.remove_route Routing.finalize
    Routes.remove_conversation
last_redeemed = refl

abbrev announced_state : Controller
announced_state = after addresses hub (announces 4 "kh") hopped_state

hub_allowed : Fresh "kh" hopped_state.session_manager
unfolding after Startup.initialize get_env_variable Membership.seed_members_from_csv
    Membership.read_members Membership.set_members Membership.keep_members Members.set_member login
    validate_credentials Session.set_session Sessions.set_session Sessions.store Sessions.index
    from_i32 to_u8 from_u8 Membership.get_member Members.get_member Dict.insert Dict.get Dict.empty
    initialize route redeem handle_route finish check_session check_conversation Session.get_session
    Sessions.get_session Routing.initialize Routing.without_dashes Routing.set_conversation
    Routes.set_conversation new_conversation strategies get_routing_id Routing.get_conversation
    Routes.get_conversation Routing.check_for_final_route get_strategy find_strategy
    random_route_strategy Session.get_client Sessions.get_client Session.get_proxies
    Sessions.get_proxies Sessions.other_sessions Dict.entries Routing.get_next_route
    random_next_route numbers range_from Routing.store_route Routes.set_route to_connection_settings
    Routing.redeem_route Routes.get_route Routes.remove_route Routing.finalize
    Routes.remove_conversation
hub_allowed = record {
  no_session = refl;
  no_client = λ u e. one_entry "alice" "ka" "kh" u (distinct_keys "ka" "kh" refl) e;
  no_controller = λ u e. cc;
  no_proxy = λ u e. one_entry "relay" "kp" "kh" u (distinct_keys "kp" "kh" refl) e;
}

status_asked :
    (network_status "1.0.0" 5 "ka" announced_state).0
    ≡ ok (record {
      version = "1.0.0";
      connected_proxies = 1;
      connected_clients = 1;
      connected_controllers = 1;
    })
unfolding after Startup.initialize get_env_variable Membership.seed_members_from_csv
    Membership.read_members Membership.set_members Membership.keep_members Members.set_member login
    validate_credentials Session.set_session Sessions.set_session Sessions.store Sessions.index
    from_i32 to_u8 from_u8 Membership.get_member Members.get_member Dict.insert Dict.get Dict.empty
    initialize route redeem handle_route finish check_session check_conversation Session.get_session
    Sessions.get_session Routing.initialize Routing.without_dashes Routing.set_conversation
    Routes.set_conversation new_conversation strategies get_routing_id Routing.get_conversation
    Routes.get_conversation Routing.check_for_final_route get_strategy find_strategy
    random_route_strategy Session.get_client Sessions.get_client Session.get_proxies
    Sessions.get_proxies Sessions.other_sessions Dict.entries Routing.get_next_route
    random_next_route numbers range_from Routing.store_route Routes.set_route to_connection_settings
    Routing.redeem_route Routes.get_route Routes.remove_route Routing.finalize
    Routes.remove_conversation network_status Startup.announce get_public_socket_address
    get_credentials get_connection_settings Session.count_clients Session.count_proxies
    Session.count_controllers Sessions.count_clients Sessions.count_proxies
    Sessions.count_controllers Dict.len to_u32
status_asked = refl

abbrev first_hop : RouteResponse
first_hop = record {
  ip_address = "10.0.0.1";
  port_number = 5001;
  public_key = [];
  domain_name = "client1";
  nonce = "n5";
  end_route = false;
}

route_answered : (route 5 "n5" first "ka" "c" hopped_state).0 ≡ ok first_hop
unfolding after Startup.initialize get_env_variable Membership.seed_members_from_csv
    Membership.read_members Membership.set_members Membership.keep_members Members.set_member login
    validate_credentials Session.set_session Sessions.set_session Sessions.store Sessions.index
    from_i32 to_u8 from_u8 Membership.get_member Members.get_member Dict.insert Dict.get Dict.empty
    initialize route redeem handle_route finish check_session check_conversation Session.get_session
    Sessions.get_session Routing.initialize Routing.without_dashes Routing.set_conversation
    Routes.set_conversation new_conversation strategies get_routing_id Routing.get_conversation
    Routes.get_conversation Routing.check_for_final_route get_strategy find_strategy
    random_route_strategy Session.get_client Sessions.get_client Session.get_proxies
    Sessions.get_proxies Sessions.other_sessions Dict.entries Routing.get_next_route
    random_next_route numbers range_from Routing.store_route Routes.set_route to_connection_settings
    Routing.redeem_route Routes.get_route Routes.remove_route Routing.finalize
    Routes.remove_conversation
route_answered = refl

hub_port : (get_connection_settings hub).port < 2 ^ 16
unfolding get_connection_settings
hub_port = omega arith

Reachable-Sound_example : Sound (get_credentials hub).uid hopped_state
Reachable-Sound_example = Reachable-Sound addresses hub hub_port hopped_state hopped-Reachable

redeem-IsKnown_example : IsKnown (get_credentials hub).uid hopped_state.member_manager "alice"
redeem-IsKnown_example =
    redeem-IsKnown addresses hub hub_port 4 "ka" "c" "n4" "alice" hopped_state hopped-Reachable
      last_redeemed

status_lone_example : 1 ≤ 1
status_lone_example =
    status_lone addresses hub hub_port 5 "1.0.0" "ka" announced_state
      (record {
        version = "1.0.0";
        connected_proxies = 1;
        connected_clients = 1;
        connected_controllers = 1;
      })
      (next _ hub_allowed hopped-Reachable) status_asked

route-port_example : 5001 < 2 ^ 16
route-port_example =
    route-port addresses hub hub_port 5 "n5" first "ka" "c" hopped_state first_hop hopped-Reachable
      route_answered
