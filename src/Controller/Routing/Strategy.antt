-- ===== src/Controller/Routing/Strategy.antt =====
-- The routing strategies of controller/src/routing.rs. The choice that the `rand` crate makes among
-- the numbers is an argument.
pub mod Choice
use fuzzy_chat.Prelude.{
  ℕ, zero, suc, ◌+◌, ◌-◌, String, Bool, Option, none, some, List, [], ◌∷◌, Outcome, ok, panic,
  Status, eqb, if◌then◌else◌, if_let, unwrap_or, length, get_elem?,
}
use fuzzy_chat.Controller.Models.{Conversation, SessionInfo}

pub record RouteStrategy : Type 0 where
  pub get_id : ℕ
  pub has_reached_final_route : Conversation → Bool
  pub get_next_route : Conversation → List SessionInfo → Outcome Status (Option SessionInfo)

-- `first..first + n`
unfoldable pub range_from : ℕ → ℕ → List ℕ
range_from first zero = []
range_from first (suc n) = first ∷ range_from (first + 1) n

-- `numbers` of `RandomRouteStrategy::get_next_route`: `0..proxies.len() - 1`, which overflows on no
-- proxies.
unfoldable pub numbers : List SessionInfo → Option (List ℕ)
unfolding range_from
numbers [] = none
numbers (p ∷ ps) = some (range_from 0 (length (p ∷ ps) - 1))

-- `IteratorRandom::choose`, of one call.
abbrev pub Choose : Type 0
Choose = List ℕ → Option ℕ

unfoldable pub random_next_route :
    Choose → Conversation → List SessionInfo → Outcome Status (Option SessionInfo)
unfolding numbers
random_next_route choose _ proxies =
    if_let (numbers proxies) (λ ns. ok (get_elem? proxies (unwrap_or (choose ns) 0))) panic

unfoldable pub random_route_strategy : Choose → RouteStrategy
unfolding random_next_route
random_route_strategy choose = record {
  get_id = 1;
  has_reached_final_route = λ c. eqb (length c.routes) 3;
  get_next_route = random_next_route choose;
}

-- `RouteStrategyFactory::new`
unfoldable pub strategies : Choose → List RouteStrategy
unfolding random_route_strategy
strategies choose = random_route_strategy choose ∷ []

unfoldable pub find_strategy : ℕ → List RouteStrategy → Outcome Status RouteStrategy
find_strategy id [] = panic
find_strategy id (s ∷ rest) =
    let more = find_strategy id rest in if eqb s.get_id id then ok s else more

-- `RouteStrategyFactory::get_strategy`
unfoldable pub get_strategy : Choose → Conversation → Outcome Status RouteStrategy
unfolding strategies find_strategy
get_strategy choose c = find_strategy c.routing_id (strategies choose)

-- `RouteStrategyFactory::get_routing_id`
unfoldable pub get_routing_id : List RouteStrategy → String → String → Outcome Status ℕ
get_routing_id [] _ _ = panic
get_routing_id (s ∷ rest) _ _ = ok s.get_id
