-- ===== src/Controller/Storage/Routes/Laws.antt =====
-- What the operations of the route repository find and leave.
use fuzzy_chat.Prelude.{
  ℕ, Option, String, some, ◌≡◌, ◌≢◌, none, Option-cases, arith, inl, eq_iff, not, if◌then◌else◌,
  ◌++◌, inr, ◌∷◌, [],
}
use fuzzy_chat.Prelude.Dict
use fuzzy_chat.Controller.Models.{Conversation, Route}
use fuzzy_chat.Controller.Storage.Expiration.{ExpirationWrapper, wrap, is_expired}
use fuzzy_chat.Controller.Storage.Times.{routes_expiration_time}
use fuzzy_chat.Controller.Storage.Routes.{
  RouteRepository, set_route, get_route, get_conversation, push_route, kill_expired,
}
use fuzzy_chat.Prelude.Dict.{get-retain, get-insert, get-insert_self}

abbrev pub unexpired :
    {A : Type 0} → ℕ → Option (ExpirationWrapper A) → Option (ExpirationWrapper A)
unexpired now none = none
unexpired now (some w) = if is_expired now w then none else some w

-- Storing a route with a new nonce in a stored conversation gives the nonce back; then the route is
-- found by it, and the conversation lists it last.
pub set_route_lem :
    (now : ℕ) (id : String) (route : Route) (w : ExpirationWrapper Conversation)
    (r : RouteRepository)
    → Dict.get r.routes route.nonce ≡ none
    → Dict.get r.conversations id ≡ some w
    → ((set_route now id route r).0 ≡ some route.nonce)
      × (get_route id route.nonce (set_route now id route r).1 ≡ some route)
      × (get_conversation id (set_route now id route r).1
          ≡ some (record w.value { routes = w.value.routes ++ route ∷ [] }))
unfolding set_route get_route get_conversation
set_route_lem now id route w r fresh e = ground (
  arith,
  get-insert_self r.routes route.nonce (wrap now route routes_expiration_time),
  get-insert_self r.conversations id (push_route route w),
)

-- Storing a route in one conversation leaves every other conversation, and the route of every other
-- nonce, as they were.
pub set_route_ne :
    (now : ℕ) (id other : String) (route : Route) (r : RouteRepository) (nonce : String)
    → id ≢ other
    → route.nonce ≢ nonce
    → (get_route other nonce (set_route now id route r).1 ≡ get_route other nonce r)
      × (get_conversation other (set_route now id route r).1 ≡ get_conversation other r)
unfolding set_route get_route get_conversation
set_route_ne now id other route r nonce h g = elim (Option-cases (Dict.get r.conversations id)) [
  | inl e ↦ ground (
    arith,
    eq_iff route.nonce nonce,
    get-insert r.routes route.nonce nonce (wrap now route routes_expiration_time),
  )
  | inr (w, e) ↦ ground (
    arith,
    eq_iff route.nonce nonce,
    eq_iff id other,
    get-insert r.routes route.nonce nonce (wrap now route routes_expiration_time),
    get-insert r.conversations id other (push_route route w),
  )
]

-- After a round of the task exactly the routes and conversations that had not expired are left,
-- unchanged.
pub kill_expired_lem :
    (now : ℕ) (k : String) (r : RouteRepository)
    → (Dict.get (kill_expired now r).routes k ≡ unexpired now (Dict.get r.routes k))
      × (Dict.get (kill_expired now r).conversations k ≡ unexpired now (Dict.get r.conversations k))
unfolding kill_expired
kill_expired_lem now k r = (
  ground (
    arith,
    get-retain (λ (_ : String) (w : ExpirationWrapper Route). not (is_expired now w)) r.routes k,
  ),
  ground (
    arith,
    get-retain (λ (_ : String) (w : ExpirationWrapper Conversation). not (is_expired now w))
        r.conversations k,
  ),
)
