-- ===== src/Controller/Runs.antt =====
-- The life of a controller: the requests that its handlers serve, the turns of the tasks of
-- controller/src/main.rs and of the in-memory repositories, and the states that they lead to.
pub mod Sound
pub mod Sessions
pub mod Conversations
pub mod Handlers
pub mod RouteHandlers
pub mod Safety
use fuzzy_chat.Prelude.{ℕ, String, Option, List}
use fuzzy_chat.Prelude.Int.{ℤ}
use fuzzy_chat.Prelude.Dict
use fuzzy_chat.Crosscutting.Component.{ComponentDescriptor}
use fuzzy_chat.Crosscutting.Endpoint.{AddrText}
use fuzzy_chat.Crosscutting.Settings.{System}
use fuzzy_chat.Controller.Models.{LoginRequest}
use fuzzy_chat.Controller.Routing.Strategy.{Choose}
use fuzzy_chat.Controller.Services.Auth
use fuzzy_chat.Controller.Services.Auth.{Request}
use fuzzy_chat.Controller.Services.Info.{network_status}
use fuzzy_chat.Controller.Services.Routes
use fuzzy_chat.Controller.Startup
use fuzzy_chat.Controller.State.{Controller}
use fuzzy_chat.Controller.Storage.Routes as Hops
use fuzzy_chat.Controller.Storage.Sessions as Storage
use fuzzy_chat.Controller.Storage.Sessions.Invariant.{Fresh}

-- Each begins with the instant at which it runs, where that matters; a new uuid and a random choice
-- follow.
pub data Event : Type 0 where
  logs_in : ℕ → String → Request LoginRequest → Event
  pings : ℕ → ℤ → Request String → Event
  logs_out : ℕ → String → Event
  asks_status : ℕ → String → String → Event
  initializes : ℕ → String → String → String → Event
  asks_route : ℕ → String → Choose → String → String → Event
  redeems : ℕ → String → String → String → Event
  announces : ℕ → String → Event
  seeds : System → (String → Option (List (Option (List String)))) → Event
  sweeps_sessions : ℕ → Event
  sweeps_routes : ℕ → Event

-- The state before the members are read.
abbrev pub blank : Controller
blank = record {
  session_manager = Storage.new;
  route_manager = Hops.new;
  member_manager = Dict.empty;
}

-- What an event leaves, whatever it answers.
unfoldable pub after : AddrText → ComponentDescriptor → Event → Controller → Controller
after addresses hub (logs_in now uuid request) s = (Auth.login now uuid request s).1
after addresses hub (pings now timestamp request) s = (Auth.ping now timestamp request s).1
after addresses hub (logs_out now key) s = (Auth.logout now key s).1
after addresses hub (asks_status now version key) s = (network_status version now key s).1
after addresses hub (initializes now uuid key recipient) s =
    (Routes.initialize now uuid key recipient s).1
after addresses hub (asks_route now uuid choose key id) s =
    (Routes.route now uuid choose key id s).1
after addresses hub (redeems now key id nonce) s = (Routes.redeem now key id nonce s).1
after addresses hub (announces now key) s = (Startup.announce addresses hub now key s).1
after addresses hub (seeds system records_of) s = (Startup.initialize system records_of s).1
after addresses hub (sweeps_sessions now) s = record s {
  session_manager = Storage.kill_expired now s.session_manager;
}
after addresses hub (sweeps_routes now) s = record s {
  route_manager = Hops.kill_expired now s.route_manager;
}

-- An access key that is made is a new one.
abbrev pub IsAllowed : Event → Controller → Type 0
IsAllowed (logs_in now uuid request) s = Fresh uuid s.session_manager
IsAllowed (announces now key) s = Fresh key s.session_manager
IsAllowed _ s = Unit

-- The states that any events, in any order and at any instants, lead to.
pub data Reachable (addresses : AddrText) (hub : ComponentDescriptor) : Controller → Type 0 where
  started : Reachable addresses hub blank
  next :
      {s : Controller} (e : Event)
      → IsAllowed e s
      → Reachable addresses hub s
      → Reachable addresses hub (after addresses hub e s)
