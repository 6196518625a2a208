-- ===== src/Examples/Gateway.antt =====
-- The authentication task, a client's life at the controller of the examples, and settings.
use fuzzy_chat.Prelude.{
  true, ℕ, refl, [], none, some, ok, eq_iff, ◌≡◌, ◌≤◌, ◌+◌, ◌<◌, ◌^◌, arith, is_ok, false, String,
  Option, Status, pure, fail,
}
use fuzzy_chat.Prelude.Dict
use fuzzy_chat.Prelude.Int.{pos}
use fuzzy_chat.Controller.State.{Controller}
use fuzzy_chat.Controller.Services.Auth.Login.{MayLogin}
use fuzzy_chat.Controller.Storage.Members
use fuzzy_chat.Crosscutting.Component as Described
use fuzzy_chat.Crosscutting.Component.{
  Component, ComponentDescriptor, ConnectionSettings, from_descriptor, from_i32, to_i32, to_u8,
}
use fuzzy_chat.Crosscutting.Settings.{System, load}
use fuzzy_chat.Crosscutting.Settings.Loading.{load_lem}
use fuzzy_chat.Gateway.Session.{
  Authenticator, AuthClient, AuthService, no_session, login, ping, logout, auth_client,
  login_request,
}
use fuzzy_chat.Gateway.Auth.{Clock, logging_in, auth_handler, next_ping, ping_interval}
use fuzzy_chat.Gateway.Auth.Handler.{next_ping_lem}
use fuzzy_chat.Gateway.Auth.Client.{Answers, auth_client-logout}
use fuzzy_chat.Gateway.AuthService.Lifecycle.{At, ping-login, logout_fails}
use fuzzy_chat.Examples.States.{demo, home, alice_member}

-- The state is the time, and a sleep takes ten milliseconds longer than asked.
abbrev clock : Clock ℕ
clock = record { now = λ s. s; sleep = λ d s. s + d + 10 }

-- A client of that clock, whose pings are all answered.
abbrev timed : Authenticator ℕ
timed = record {
  login = pure tt;
  logout = pure tt;
  ping = pure ("PONG", pos 0);
  is_authenticated = λ s. true;
  get_session = λ s. no_session;
}

next_ping_lem_example :
    (q : ℕ) × (next_ping clock timed 3000 4200 ≡ timed.ping q)
    × (3000 + ping_interval ≤ clock.now q)
    × (clock.now q ≤ 3000 + ping_interval + 10)
next_ping_lem_example =
    next_ping_lem clock timed 10 3000 4200 (λ d q. omega arith) (λ d q. omega arith) (omega arith)
      (omega arith)

-- A service that gives everybody the access key "k", and fails at each ping.
abbrev service : AuthService Unit
service = record {
  login = λ r. pure (record { access_key = "k"; message = "" });
  logout = λ key. pure tt;
  ping = λ key. fail "lost";
}

abbrev settings : ConnectionSettings
settings = record { ip = "10.0.0.1"; port = 5001; domain_name = "client1"; certificate = [] }

abbrev initial : {S : Type 0} → Option (AuthService S) → S → AuthClient S
initial stub world = record {
  session = no_session;
  client = stub;
  credentials = record { uid = "alice"; pwd = "secret" };
  connection_settings = settings;
  component_type = Component.client;
  world = world;
}

abbrev still : Clock (AuthClient Unit)
still = record { now = λ c. 0; sleep = λ d c. c }

service-Answers : Answers service
service-Answers = record { login = λ r s e. cc e; logout = λ key s e. cc e; ping = λ key s e. cc e }

auth_client-logout_example :
    (q : AuthClient Unit) × (q.client ≡ some service)
    × (auth_handler still auth_client 5 logging_in (initial (some service) tt)
        ≡ (ok tt, (logout q).1))
auth_client-logout_example =
    auth_client-logout service service-Answers still (λ d c. refl) 5 logging_in
      (initial (some service) tt) refl

abbrev shown : Status → String
shown e = e.message

abbrev alice_client : AuthClient Controller
alice_client = initial none demo

abbrev here_at : ℕ → AuthClient Controller → AuthClient Controller
here_at now c = At "kn" (pos 1) home shown "lost" now c

alice_client-MayLogin : MayLogin (login_request alice_client) Component.client demo
unfolding from_i32 to_i32 to_u8 Members.get_member Dict.get Dict.insert Dict.empty
alice_client-MayLogin = record {
  named = ground (arith, eq_iff "alice" "");
  known = refl;
  no_controller = refl;
  member = alice_member;
  found = refl;
  password = refl;
}

ping-login_example : (ping (here_at 9 (login (here_at 1 alice_client)).1)).0 ≡ ok ("PONG", pos 1)
ping-login_example =
    ping-login "kn" (pos 1) home shown "lost" 1 9 alice_client Component.client
      alice_client-MayLogin

-- A client that has logged in before.
abbrev returning : String → AuthClient Controller
returning key = record alice_client {
  session = record { access_key = some key; uid = some "alice" };
}

no_such_session : Dict.get demo.session_manager.sessions "zz" ≡ none
unfolding Dict.get Dict.insert Dict.empty
no_such_session = refl

logout_fails_example :
    (is_ok (logout (here_at 9 (returning "zz"))).0 ≡ false)
    × ((logout (here_at 9 (returning "zz"))).1.session ≡ (returning "zz").session)
    × ((logout (here_at 9 (returning "zz"))).1.world ≡ demo)
logout_fails_example =
    logout_fails "kn" (pos 1) home shown "lost" 9 (returning "zz") "zz" refl no_such_session

-- Every variable is set to the text of a port, and every file is empty.
abbrev pub system : System
system = record {
  var = λ name. some "5001";
  read = λ path. ok [];
  current_dir = some "/";
  join = λ dir file. dir;
}

abbrev pub loaded : ComponentDescriptor
loaded =
    ComponentDescriptor.proxy (record { uid = "5001"; pwd = "5001" })
      (record { ip = "5001"; port = 5001; domain_name = "5001"; certificate = [] })

pub loads : (load Component.proxy system).0 ≡ ok loaded
unfolding load
loads = refl

load_lem_example :
    (from_descriptor loaded ≡ Component.proxy)
    × ((Described.get_connection_settings loaded).port < 2 ^ 16)
load_lem_example = load_lem Component.proxy system loaded loads
