-- ===== src/Examples/Startup.antt =====
-- A controller that announces itself twice.
use fuzzy_chat.Prelude.{
  String, [], some, none, ok, ◌≡◌, refl, arith, inl, ◌≢◌, eq_iff, Bool-cases, inr, ◌==◌,
}
use fuzzy_chat.Prelude.Dict
use fuzzy_chat.Prelude.Dict.{get-empty}
use mathlib.Core.Option.{some-injective}
use fuzzy_chat.Controller.Models.{SessionInfo}
use fuzzy_chat.Crosscutting.Component.{
  Component, ComponentDescriptor, to_u8, get_credentials, get_connection_settings,
}
use fuzzy_chat.Crosscutting.Endpoint.{AddrText, get_public_socket_address}
use fuzzy_chat.Controller.State.{Controller}
use fuzzy_chat.Controller.Startup.{announce}
use fuzzy_chat.Controller.Startup.Announcing.{announce-kill_expired}
use fuzzy_chat.Controller.Storage.Expiration.{wrap}
use fuzzy_chat.Controller.Storage.Sessions
use fuzzy_chat.Controller.Storage.Sessions.{SessionRepository, kill_expired}
use fuzzy_chat.Controller.Storage.Sessions.Invariant.{
  WellFormed, Fresh, new-WellFormed, store-index-WellFormed,
}
use fuzzy_chat.Examples.States.{home, demo, alice}

abbrev pub addresses : AddrText
addresses = record { to_string = λ n. "8080"; parse = λ text. some home }

abbrev pub hub : ComponentDescriptor
hub =
    ComponentDescriptor.controller (record { uid = "hub"; pwd = "secret" })
      (record { ip = "127.0.0.1"; port = 8080; domain_name = "controller"; certificate = [] })
      "1.0.0"

abbrev own : String → SessionInfo
own key = record alice {
  access_key = key;
  uid = "hub";
  on_port_number = 8080;
  on_ip_address = "127.0.0.1";
  component_type = 0;
  domain_name = "controller";
}

abbrev announced_once : SessionRepository
announced_once =
    Sessions.store 0 (own "h1") (Sessions.index Component.controller (own "h1") Sessions.new)

abbrev hub_state : Controller
hub_state = record demo { session_manager = announced_once }

first_key : Fresh "h1" Sessions.new
unfolding Dict.get Dict.empty
first_key = record {
  no_session = refl;
  no_client = λ u e. cc;
  no_controller = λ u e. cc;
  no_proxy = λ u e. cc;
}

well_formed : WellFormed announced_once
unfolding to_u8
well_formed = store-index-WellFormed 0 Component.controller (own "h1") refl first_key new-WellFormed

different_keys : ◌≢◌ {A = String} "h1" "h2"
different_keys e = ground (arith, e, eq_iff "h1" "h2")

second_key : Fresh "h2" announced_once
unfolding Sessions.store Sessions.index Dict.get Dict.insert Dict.empty
second_key = record {
  no_session = refl;
  no_client = λ u e. cc;
  no_controller = λ u e. elim (Bool-cases ("hub" == u)) [
    | inl h ↦ different_keys (some-injective _ _ (rw h at e))
    | inr h ↦ cc (rw h at e)
  ];
  no_proxy = λ u e. cc;
}

announce-kill_expired_example :
    (q : SessionRepository) × (announce addresses hub 2000 "h2" hub_state
      ≡ (ok "h2", record hub_state { session_manager = q }))
    × (Dict.get q.controllers "hub" ≡ some "h2")
    × (Dict.get (kill_expired 10001 q).sessions "h2" ≡ some (wrap 2000 (own "h2") 10000))
    × (Dict.get (kill_expired 10001 q).controllers "hub" ≡ none)
unfolding get_public_socket_address get_credentials get_connection_settings to_u8 Sessions.store
    Sessions.index Dict.get Dict.insert Dict.empty
announce-kill_expired_example =
    announce-kill_expired addresses hub home refl 2000 10001 "h2" "h1" (wrap 0 (own "h1") 10000)
      hub_state well_formed second_key refl refl refl (omega arith)
