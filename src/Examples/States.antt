-- ===== src/Examples/States.antt =====
-- A controller with one client and two proxies, and conversations that have had three hops and none.
use fuzzy_chat.Prelude.{ℕ, String, [], List, Bool, false, Option, ◌∷◌, true, none, some}
use fuzzy_chat.Prelude.Dict
use fuzzy_chat.Crosscutting.Networking.{SocketAddr, v4}
use fuzzy_chat.Controller.Models.{LoginRequest, Member, SessionInfo, Conversation, Route}
use fuzzy_chat.Prelude.Int.{pos}
use fuzzy_chat.Controller.Storage.Sessions.{SessionRepository}
use fuzzy_chat.Controller.Storage.Routes.{RouteRepository}
use fuzzy_chat.Controller.State.{Controller}
use fuzzy_chat.Controller.Storage.Expiration.{wrap}

abbrev pub home : SocketAddr
home = v4 2130706433 8080

abbrev pub alice : SessionInfo
alice = record {
  access_key = "ka";
  uid = "alice";
  client_ip = home;
  on_port_number = 5001;
  on_ip_address = "10.0.0.1";
  component_type = 2;
  public_key = [];
  domain_name = "client1";
}

abbrev pub relay : SessionInfo
relay = record alice {
  access_key = "kp";
  uid = "relay";
  component_type = 1;
  domain_name = "proxy-one";
}

abbrev pub other_relay : SessionInfo
other_relay = record relay { access_key = "kq"; uid = "other"; domain_name = "proxy-two" }

abbrev pub sessions : SessionRepository
sessions = record {
  sessions =
      Dict.insert
        (Dict.insert (Dict.insert Dict.empty "ka" (wrap 0 alice 10000)) "kp" (wrap 0 relay 10000))
        "kq" (wrap 5000 other_relay 10000);
  clients = Dict.insert Dict.empty "alice" "ka";
  controllers = Dict.empty;
  proxies = Dict.insert (Dict.insert Dict.empty "relay" "kp") "other" "kq";
}

abbrev pub hop : String → Bool → Route
hop nonce end_route = record {
  on_ip_address = "10.0.0.2";
  on_port_number = 5002;
  public_key = [];
  domain_name = "proxy-one";
  nonce = nonce;
  end_route = end_route;
}

abbrev pub fresh_talk : Conversation
fresh_talk = record { id = "c0"; sender = "bob"; recipient = "alice"; routing_id = 1; routes = [] }

abbrev pub late_talk : Conversation
late_talk = record fresh_talk {
  id = "c3";
  routes = hop "n1" false ∷ hop "n2" false ∷ hop "n3" false ∷ [];
}

abbrev pub routes : RouteRepository
routes = record {
  routes =
      Dict.insert (Dict.insert Dict.empty "n3" (wrap 0 (hop "n3" false) 60000)) "n4"
        (wrap 0 (hop "n4" true) 60000);
  conversations =
      Dict.insert (Dict.insert Dict.empty "c0" (wrap 0 fresh_talk 60000)) "c3"
        (wrap 0 late_talk 60000);
}

abbrev pub alice_member : Member
alice_member = record { uid = "alice"; pwd = "secret" }

abbrev pub demo : Controller
demo = record {
  session_manager = sessions;
  route_manager = routes;
  member_manager = Dict.insert Dict.empty "alice" alice_member;
}

abbrev pub alice_login : LoginRequest
alice_login = record {
  uid = "alice";
  pwd = "secret";
  on_ip = "10.0.0.1";
  on_port = 70537;
  public_key = [];
  domain_name = "client1";
  component_type = pos 2;
}

-- `rand` picks the first number.
abbrev pub first : List ℕ → Option ℕ
first [] = none
first (n ∷ ns) = some n
