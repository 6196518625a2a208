-- ===== src/Examples/Auth.antt =====
-- Log-ins, pings and log-outs.
use fuzzy_chat.Prelude.Int.{pos}
use fuzzy_chat.Prelude.{
  ◌≢◌, panic, ◌+◌, ◌%◌, ◌^◌, arith, some, none, ◌≡◌, eq_iff, ok, ◌⊎◌, Option, refl,
}
use fuzzy_chat.Prelude.Dict
use fuzzy_chat.Crosscutting.Component.{Component, from_i32, to_u8}
use fuzzy_chat.Crosscutting.Networking.{SocketAddr}
use fuzzy_chat.Controller.Storage.Members
use fuzzy_chat.Controller.Services.Auth.{login, logout, ping, ping_amid}
use fuzzy_chat.Controller.Services.Auth.Login.{
  MayLogin, Refused, logged_in, login_stores, login_cases,
}
use fuzzy_chat.Controller.Services.Auth.Ping.{from, ping-race, logout_revokes, logout-proxies}
use fuzzy_chat.Controller.Services.Access.{Denied, access-Denied}
use fuzzy_chat.Examples.States.{demo, home, alice, alice_login, alice_member}
use fuzzy_chat.Controller.Storage.Expiration.{wrap}

pub alice-MayLogin : MayLogin alice_login Component.client demo
unfolding from_i32 Members.get_member Dict.get Dict.insert Dict.empty
alice-MayLogin = record {
  named = ground (arith, eq_iff "alice" "");
  known = refl;
  no_controller = refl;
  member = alice_member;
  found = refl;
  password = refl;
}

login_stores_example :
    ((login 1 "kn" (record { remote_addr = some home; inner = alice_login }) demo).0
      ≡ ok (record { access_key = "kn"; message = "Login successful" }))
    × (Dict.get
          (login 1 "kn"
            (record { remote_addr = some home; inner = alice_login })
            demo).1.session_manager.sessions
          "kn"
        ≡ some (record {
          value = record {
            access_key = "kn";
            uid = "alice";
            client_ip = home;
            on_port_number = alice_login.on_port % 2 ^ 16;
            on_ip_address = alice_login.on_ip;
            component_type = to_u8 Component.client;
            public_key = alice_login.public_key;
            domain_name = alice_login.domain_name;
          };
          expires_at = 1 + 10000;
          expiration_time = 10000;
        }))
    × (Component.client ≡ Component.client
        → Dict.get
            (login 1 "kn"
              (record { remote_addr = some home; inner = alice_login })
              demo).1.session_manager.clients
            "alice"
          ≡ some "kn")
    × (Component.client ≡ Component.proxy
        → Dict.get
            (login 1 "kn"
              (record { remote_addr = some home; inner = alice_login })
              demo).1.session_manager.proxies
            "alice"
          ≡ some "kn")
login_stores_example = login_stores 1 "kn" home alice_login Component.client demo alice-MayLogin

login_cases_example :
    Refused (login 1 "kn" (record { remote_addr = none; inner = alice_login }) demo) demo
    ⊎ ((ip : SocketAddr) × (c : Component) × ◌≡◌ {A = Option SocketAddr} none (some ip)
        × MayLogin alice_login c demo
        × (login 1 "kn" (record { remote_addr = none; inner = alice_login }) demo ≡ (
          ok (record { access_key = "kn"; message = "Login successful" }),
          logged_in 1 "kn" alice_login c ip demo,
        )))
login_cases_example = login_cases 1 "kn" (record { remote_addr = none; inner = alice_login }) demo

pub alice_session : Dict.get demo.session_manager.sessions "ka" ≡ some (wrap 0 alice 10000)
unfolding Dict.get Dict.insert Dict.empty
alice_session = refl

ping-race_example :
    ((ping 9 (pos 1) (from home "ka") demo).0 ≢ panic)
    × ((ping_amid (λ q. (logout 9 "ka" q).1) 9 (pos 1) (from home "ka") demo).0 ≡ panic)
ping-race_example = ping-race 9 9 (pos 1) home "ka" (wrap 0 alice 10000) demo alice_session

logout_revokes_example :
    ((logout 9 "ka" demo).0 ≡ ok tt)
    × (Dict.get (logout 9 "ka" demo).1.session_manager.sessions "ka" ≡ none)
    × (Dict.get (logout 9 "ka" demo).1.session_manager.clients "alice" ≡ none)
logout_revokes_example = logout_revokes 9 "ka" (wrap 0 alice 10000) demo alice_session

logout-proxies_example :
    (logout 9 "kp" demo).1.session_manager.proxies ≡ demo.session_manager.proxies
logout-proxies_example = logout-proxies 9 "kp" demo

no_session : Dict.get demo.session_manager.sessions "zz" ≡ none
unfolding Dict.get Dict.insert Dict.empty
no_session = refl

access-Denied_example : Denied demo (logout 9 "zz" demo)
access-Denied_example = (access-Denied 9 "zz" demo no_session).1
