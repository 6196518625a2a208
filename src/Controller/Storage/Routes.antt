-- ===== src/Controller/Storage/Routes.antt =====
-- controller/src/storage/inmemory/route_repository.rs. The routes are kept by nonce, apart from the
-- conversations, and a conversation also lists its routes.
pub mod Laws
use fuzzy_chat.Prelude.{ℕ, String, Option, none, some, [], ◌∷◌, ◌++◌, not, is_some, if◌then◌else◌}
use fuzzy_chat.Prelude.Dict
use fuzzy_chat.Prelude.Dict.{Dict}
use fuzzy_chat.Controller.Models.{Conversation, Route}
use fuzzy_chat.Controller.Storage.Expiration.{ExpirationWrapper, wrap, is_expired}
use fuzzy_chat.Controller.Storage.Times.{routes_expiration_time, conversations_expiration_time}

pub record RouteRepository : Type 0 where
  pub routes : Dict (ExpirationWrapper Route)
  pub conversations : Dict (ExpirationWrapper Conversation)

abbrev pub new : RouteRepository
new = record { routes = Dict.empty; conversations = Dict.empty }

-- An id that is taken gives `none`, and the conversation is replaced all the same.
unfoldable pub set_conversation :
    ℕ → Conversation → RouteRepository → Option String × RouteRepository
set_conversation now c r = (
  if is_some (Dict.get r.conversations c.id) then none else some c.id,
  record r {
    conversations = Dict.insert r.conversations c.id (wrap now c conversations_expiration_time);
  },
)

unfoldable pub remove_conversation : String → RouteRepository → RouteRepository
remove_conversation id r = record r { conversations = Dict.remove r.conversations id }

abbrev pub value_of : {A : Type 0} → Option (ExpirationWrapper A) → Option A
value_of none = none
value_of (some w) = some w.value

unfoldable pub get_conversation : String → RouteRepository → Option Conversation
get_conversation id r = value_of (Dict.get r.conversations id)

-- `wrapper.value.routes.push(route)`
abbrev pub push_route : Route → ExpirationWrapper Conversation → ExpirationWrapper Conversation
push_route route w = record w { value = record w.value { routes = w.value.routes ++ route ∷ [] } }

-- A nonce that is taken, or an unknown conversation, gives `none`; the route is stored in each case.
unfoldable pub set_route : ℕ → String → Route → RouteRepository → Option String × RouteRepository
set_route now id route r =
    let q : RouteRepository = record r {
      routes = Dict.insert r.routes route.nonce (wrap now route routes_expiration_time);
    } in
    if is_some (Dict.get r.routes route.nonce)
    then (none, q)
    else elim (Dict.get r.conversations id) [
      | none ↦ (none, q)
      | some w ↦ (
        some route.nonce,
        record q { conversations = Dict.insert q.conversations id (push_route route w) },
      )
    ]

-- The conversation is not looked at.
unfoldable pub get_route : String → String → RouteRepository → Option Route
get_route _ nonce r = value_of (Dict.get r.routes nonce)

unfoldable pub remove_route : String → RouteRepository → RouteRepository
remove_route nonce r = record r { routes = Dict.remove r.routes nonce }

-- One round of the task that `kill_expired_sessions` spawns.
unfoldable pub kill_expired : ℕ → RouteRepository → RouteRepository
kill_expired now r = record {
  routes = Dict.retain (λ _ w. not (is_expired now w)) r.routes;
  conversations = Dict.retain (λ _ w. not (is_expired now w)) r.conversations;
}
