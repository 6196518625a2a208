-- ===== src/Controller/Routing.antt =====
-- controller/src/routing.rs: `RouteManager`, as actions on the controller's state. The `Uuid`s that
-- it makes are arguments.
pub mod Strategy
use Prim.Native.Char.{code}
use Prim.Native.String as Text
use fuzzy_chat.Prelude.{
  ℕ, String, Bool, Option, none, some, List, Outcome, ok, err, panic, Status, pure, lift, ◌>>=◌,
  ◌>>◌, eqb, if◌then◌else◌,
}
use fuzzy_chat.Crosscutting.Component.{ConnectionSettings}
use fuzzy_chat.Controller.Models.{Conversation, Route, SessionInfo, new_conversation}
use fuzzy_chat.Controller.State.{Controller, Handler}
use fuzzy_chat.Controller.Storage.Routes
use Strategy.{Choose, strategies, get_strategy, get_routing_id}

-- `to_string().replace('-', "")` of `create_conversation_id`
unfoldable pub without_dashes : String → String
without_dashes Text.[] = Text.[]
without_dashes (Text.◌∷◌ c s) =
    let rest = without_dashes s in if eqb (code c) b'-' then rest else Text.◌∷◌ c rest

unfoldable pub set_conversation : ℕ → Conversation → Handler (Option String)
unfolding Routes.set_conversation
set_conversation now c s =
    let (o, q) = Routes.set_conversation now c s.route_manager in
    (ok o, record s { route_manager = q })

-- `RouteManager::initialize`
unfoldable pub initialize : ℕ → String → String → String → Handler (Option String)
unfolding without_dashes set_conversation
initialize now uuid sender recipient = do
  routing_id ← lift (get_routing_id (strategies (λ _. none)) sender recipient)
  set_conversation now (new_conversation (without_dashes uuid) sender recipient routing_id)

unfoldable pub finalize : String → Handler Unit
unfolding Routes.remove_conversation
finalize id s = (ok tt, record s { route_manager = Routes.remove_conversation id s.route_manager })

unfoldable pub get_conversation : String → Handler (Option Conversation)
get_conversation id s = (ok (Routes.get_conversation id s.route_manager), s)

-- The route that `store_route` keeps.
abbrev pub route_to : ConnectionSettings → String → Bool → Route
route_to settings nonce end_route = record {
  on_ip_address = settings.ip;
  on_port_number = settings.port;
  public_key = settings.certificate;
  domain_name = settings.domain_name;
  nonce = nonce;
  end_route = end_route;
}

unfoldable pub store_route :
    ℕ → String → String → ConnectionSettings → Bool → Handler (Option String)
store_route now nonce id settings end_route s =
    let (o, q) = Routes.set_route now id (route_to settings nonce end_route) s.route_manager in
    (ok o, record s { route_manager = q })

-- `redeem_route` locks the repository for the look-up, and again for the removal. `meanwhile` is what
-- other requests do between the two.
unfoldable pub redeem_route_amid :
    (Controller → Controller) → String → String → Handler (Option Route)
redeem_route_amid meanwhile id nonce s = elim (Routes.get_route id nonce s.route_manager) [
  | none ↦ (ok none, s)
  | some route ↦ (
    ok (some route),
    record (meanwhile s) { route_manager = Routes.remove_route nonce (meanwhile s).route_manager },
  )
]

-- Without others in between.
unfoldable pub redeem_route : String → String → Handler (Option Route)
unfolding redeem_route_amid
redeem_route = redeem_route_amid (λ s. s)

unfoldable pub get_next_route :
    Choose → Conversation → List SessionInfo → Outcome Status (Option SessionInfo)
unfolding get_strategy
get_next_route choose c proxies = elim (get_strategy choose c) [
  | ok strategy ↦ strategy.get_next_route c proxies
  | err e ↦ err e
  | panic ↦ panic
]

unfoldable pub check_for_final_route : Conversation → Outcome Status Bool
unfolding get_strategy
check_for_final_route c = elim (get_strategy (λ _. none) c) [
  | ok strategy ↦ ok (strategy.has_reached_final_route c)
  | err e ↦ err e
  | panic ↦ panic
]
