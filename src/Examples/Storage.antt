-- ===== src/Examples/Storage.antt =====
-- The in-memory repositories.
use fuzzy_chat.Prelude.Dict
use fuzzy_chat.Crosscutting.Component.{Component, to_u8}
use fuzzy_chat.Controller.Storage.Sessions
use fuzzy_chat.Controller.Storage.Sessions.Invariant.{
  WellFormed, Fresh, new-WellFormed, store-index-WellFormed,
}
use fuzzy_chat.Controller.Storage.Sessions.Expiry.{surviving, sessions-kill_expired}
use fuzzy_chat.Controller.Storage.Sessions.Reachable.{NoneExpired, get_client-kill_expired_stale}
use fuzzy_chat.Controller.Storage.Sessions.Lookup.{IsOtherProxy, get_proxies-exact}
use fuzzy_chat.Controller.Services.KeepAlive.{Event, pings, sweeps, run, Alive, InTime, run-Alive}
use fuzzy_chat.Examples.States.{demo, home, alice, relay, other_relay, fresh_talk, sessions, routes}
use fuzzy_chat.Prelude.{refl, [], none, some, ◌≡◌, arith, In, ◌≢◌, List, ℕ, eq_iff, ◌∷◌, String}
use fuzzy_chat.Controller.Storage.Sessions.{SessionRepository}
use fuzzy_chat.Controller.State.{Controller}
use fuzzy_chat.Controller.Storage.Expiration.{wrap}

-- Alice alone, logged in at 0.
abbrev alone : SessionRepository
alone = Sessions.store 0 alice (Sessions.index Component.client alice Sessions.new)

nothing_issued : Fresh "ka" Sessions.new
unfolding Dict.get Dict.empty
nothing_issued = record {
  no_session = refl;
  no_client = λ u e. cc;
  no_controller = λ u e. cc;
  no_proxy = λ u e. cc;
}

alone-WellFormed : WellFormed alone
unfolding to_u8
alone-WellFormed =
    store-index-WellFormed 0 Component.client alice refl nothing_issued new-WellFormed

alice_alone : Dict.get alone.sessions "ka" ≡ some (wrap 0 alice 10000)
unfolding Sessions.store Sessions.index Dict.get Dict.insert Dict.empty
alice_alone = refl

sessions-kill_expired_example :
    Dict.get (Sessions.kill_expired 10001 alone).sessions "ka"
    ≡ surviving 10001 (Dict.get alone.sessions "ka")
sessions-kill_expired_example = sessions-kill_expired 10001 alone-WellFormed "ka"

still_alive : NoneExpired 10000 "alice" alone
unfolding Sessions.store Sessions.index Dict.get Dict.insert Dict.empty
still_alive k w e u = ground (arith, eq_iff "ka" k)

-- Alice logs in again at 8000; her first session expires while the second is alive.
abbrev twice : SessionRepository
twice =
    Sessions.store 8000 (record alice { access_key = "kb" })
      (Sessions.index Component.client (record alice { access_key = "kb" }) alone)

first_login : Dict.get twice.sessions "ka" ≡ some (wrap 0 alice 10000)
unfolding Sessions.store Sessions.index Dict.get Dict.insert Dict.empty
first_login = refl

get_client-kill_expired_stale_example :
    Sessions.get_client "alice" (Sessions.kill_expired 10001 twice) ≡ none
get_client-kill_expired_stale_example =
    get_client-kill_expired_stale 10001 "ka" (wrap 0 alice 10000) twice first_login refl

second_login : Sessions.get_client "alice" twice ≡ some (record alice { access_key = "kb" })
unfolding Sessions.get_client Sessions.store Sessions.index Dict.get Dict.insert Dict.empty
second_login = refl

offered : Sessions.get_proxies "ka" sessions ≡ some (other_relay ∷ relay ∷ [])
unfolding Sessions.get_proxies Dict.entries Dict.get Dict.insert Dict.empty
offered = refl

get_proxies-exact_example :
    (In relay (other_relay ∷ relay ∷ []) → IsOtherProxy "ka" sessions relay)
    × (IsOtherProxy "ka" sessions relay → In relay (other_relay ∷ relay ∷ []))
get_proxies-exact_example = get_proxies-exact "ka" sessions (other_relay ∷ relay ∷ []) offered relay

new_nonce : Dict.get routes.routes "n9" ≡ none
unfolding Dict.get Dict.insert Dict.empty
new_nonce = refl

talking : Dict.get routes.conversations "c0" ≡ some (wrap 0 fresh_talk 60000)
unfolding Dict.get Dict.insert Dict.empty
talking = refl

other_conversation : ◌≢◌ {A = String} "c0" "c3"
other_conversation = ground (arith, eq_iff "c0" "c3")

other_nonce : ◌≢◌ {A = String} "n9" "n4"
other_nonce = ground (arith, eq_iff "n9" "n4")

abbrev alone_state : Controller
alone_state = record demo { session_manager = alone }

abbrev day : List Event
day = sweeps 5000 ∷ pings 9000 home "ka" ∷ sweeps 10001 ∷ pings 18000 home "zz" ∷ sweeps 19000 ∷ []

alice_lives : Alive "ka" 0 alice alone_state
alice_lives = record {
  well = alone-WellFormed;
  session = wrap 0 alice 10000;
  has_session = alice_alone;
  same_value = refl;
  renewed = refl;
}

day-InTime : InTime "ka" 0 day
day-InTime = omega arith

run-Alive_example : (n : ℕ) × Alive "ka" n alice (run day alone_state)
run-Alive_example = run-Alive "ka" 0 alice day alone_state day-InTime alice_lives
