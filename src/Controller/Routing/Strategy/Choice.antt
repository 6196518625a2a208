-- ===== src/Controller/Routing/Strategy/Choice.antt =====
-- Which proxy `RandomRouteStrategy` picks.
use fuzzy_chat.Prelude.{
  zero, suc, refl, get_elem?_total, ℕ, [], In, List, ◌≡◌, ◌≤◌, ◌∷◌, none, ◌<◌, ok, some, ◌+◌, suc,
  get_elem?, here, ◌⊎◌, arith, length, there, inl, ◌-◌, inr,
}
use fuzzy_chat.Controller.Models.{Conversation, SessionInfo}
use fuzzy_chat.Controller.Routing.Strategy.{Choose, range_from, numbers, random_next_route}

-- What `rand` documents of `IteratorRandom::choose`: it gives an item, and `None` exactly for the
-- empty iterator.
pub record IsChoice (choose : Choose) : Type 0 where
  pub of_nil : choose [] ≡ none
  pub of_cons : (n : ℕ) (ns : List ℕ) → (i : ℕ) × (choose (n ∷ ns) ≡ some i) × In i (n ∷ ns)

range_from_bounds : (a n i : ℕ) → In i (range_from a n) → (a ≤ i) × (i < a + n)
unfolding range_from
range_from_bounds a zero i m = elim m [ ]
range_from_bounds a (suc n) i (here e) = omega (arith, e)
range_from_bounds a (suc n) i (there m) = omega (arith, range_from_bounds (a + 1) n i m)

module _ (choose : Choose) (h : IsChoice choose) (c : Conversation) where
  -- From at least one proxy, with a choice that is one of its range, the strategy picks one of them:
  -- the only one if there is one, and otherwise one that is not the last.
  pub random_next_route_lem :
      (p : SessionInfo) (ps : List SessionInfo)
      → (i : ℕ) × (q : SessionInfo) × (random_next_route choose c (p ∷ ps) ≡ ok (some q))
        × (get_elem? (p ∷ ps) i ≡ some q)
        × ((ps ≡ []) ⊎ (i + 1 < length (p ∷ ps)))
  unfolding random_next_route numbers range_from
  random_next_route_lem p [] = (0, p, ground (arith, h.of_nil), refl, inl refl)
  random_next_route_lem p (q ∷ ps) =
      let (i, e, m) = h.of_cons 0 (range_from 1 (length ps)) in
      let b : i < 0 + suc (length ps) = (range_from_bounds 0 (suc (length ps)) i m).1 in
      let (r, g) = get_elem?_total (p ∷ q ∷ ps) i (omega arith) in
      let n : length (p ∷ q ∷ ps) - 1 ≡ suc (length ps) = omega arith in
      (i, r, ground (arith, e, g, n), g, inr (omega arith))
