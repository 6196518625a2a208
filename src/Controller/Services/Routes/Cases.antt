-- ===== src/Controller/Services/Routes/Cases.antt =====
-- The cases of `route` of route_service.rs, for a conversation of the strategy that there is.
use fuzzy_chat.Prelude.{
  ℕ, String, Option, none, some, Outcome, ok, Status, ◌≡◌, refl, ap, ◌∙◌, ◌⊎◌, arith, Option-cases,
  Bool-cases, inl, inr, List, [], ◌∷◌, true, false, eqb, length, is_err, ◌-◌, Bool, get_elem?-mem,
  In, unwrap_or,
}
use mathlib.Core.Option.{some-injective}
use fuzzy_chat.Prelude.Dict
use fuzzy_chat.Controller.Models.{Conversation, SessionInfo, RouteResponse}
use fuzzy_chat.Controller.State.{Controller}
use fuzzy_chat.Controller.Routing
use fuzzy_chat.Controller.Routing.Strategy.{Choose, random_next_route, numbers, range_from}
use fuzzy_chat.Controller.Session
use fuzzy_chat.Controller.Storage.Routes
use fuzzy_chat.Controller.Storage.Sessions
use fuzzy_chat.Controller.Storage.Sessions.{SessionRepository}
use fuzzy_chat.Controller.Storage.Sessions.Lookup.{get_proxies-ne-nil, get_proxies-exact}
use fuzzy_chat.Controller.Storage.Sessions.Shrinks.{Wrapped}
use fuzzy_chat.Controller.Services.Routes.{route, handle_route}
use fuzzy_chat.Controller.Services.Routes.Hops.{check_lem, next_lem}
use fuzzy_chat.Controller.Services.Guards.Facts.{
  touch, check_session-none, check_session-some, check_conversation-none, check_conversation-some,
}

-- A status, and the state in which it leaves the controller.
abbrev pub IsRefused : Outcome Status RouteResponse × Controller → Controller → Type 0
IsRefused x t = (is_err x.0 ≡ true) × (x.1 ≡ t)

-- A session that stands under some access key.
abbrev pub IsStored : SessionInfo → SessionRepository → Type 0
IsStored q r = (k : String) × (w : Wrapped) × (Dict.get r.sessions k ≡ some w) × (w.value ≡ q)

get_client-IsStored :
    (uid : String) (r : SessionRepository) (q : SessionInfo)
    → Sessions.get_client uid r ≡ some q
    → IsStored q r
unfolding Sessions.get_client
get_client-IsStored uid r q e = elim (Option-cases (Dict.get r.clients uid)) [
  | inl f ↦ ground (arith, f, e)
  | inr (k, f) ↦ elim (Option-cases (Dict.get r.sessions k)) [
    | inl g ↦ ground (arith, f, g, e)
    | inr (w, g) ↦ (k, w, g, some-injective _ _ (ground (arith, f, g, e)))
  ]
]

next_mem :
    (choose : Choose) (c : Conversation) (p : SessionInfo) (ps : List SessionInfo) (q : SessionInfo)
    → random_next_route choose c (p ∷ ps) ≡ ok (some q)
    → In q (p ∷ ps)
unfolding random_next_route numbers
next_mem choose c p ps q e =
    get_elem?-mem (p ∷ ps) (unwrap_or (choose (range_from 0 (length (p ∷ ps) - 1))) 0) q
      (ground (arith, e))

next-some :
    (choose : Choose) (c : Conversation) (p : SessionInfo) (ps : List SessionInfo)
    → (o : Option SessionInfo) × (random_next_route choose c (p ∷ ps) ≡ ok o)
unfolding random_next_route numbers
next-some choose c p ps = (_, refl)

module _ (now : ℕ) (uuid : String) (choose : Choose) (key id : String) (s : Controller)
    (w : Wrapped) (f : Dict.get s.session_manager.sessions key ≡ some w) (c : Conversation)
    (g : Routes.get_conversation id s.route_manager ≡ some c) (random : c.routing_id ≡ 1) where
  abbrev seen : Controller
  seen = touch now key w s

  conversation_found : Routing.get_conversation id seen ≡ (ok (some c), seen)
  unfolding Routing.get_conversation
  conversation_found = ground (arith, g)

  final_steps :
      (q : SessionInfo)
      → eqb (length c.routes) 3 ≡ true
      → Sessions.get_client c.recipient seen.session_manager ≡ some q
      → route now uuid choose key id s ≡ handle_route now uuid id q true seen
  unfolding route Session.get_client
  final_steps q three k = ground (
    arith,
    check_session-some now key s w f,
    check_conversation-some id seen c g,
    conversation_found,
    check_lem c random,
  )

  final_none :
      eqb (length c.routes) 3 ≡ true
      → Sessions.get_client c.recipient seen.session_manager ≡ none
      → IsRefused (route now uuid choose key id s) seen
  unfolding route Session.get_client
  final_none three k = ground (
    arith,
    check_session-some now key s w f,
    check_conversation-some id seen c g,
    conversation_found,
    check_lem c random,
  )

  hop_steps :
      (q p : SessionInfo) (ps : List SessionInfo)
      → eqb (length c.routes) 3 ≡ false
      → Sessions.get_proxies key seen.session_manager ≡ some (p ∷ ps)
      → random_next_route choose c (p ∷ ps) ≡ ok (some q)
      → route now uuid choose key id s ≡ handle_route now uuid id q false seen
  unfolding route Session.get_proxies
  hop_steps q p ps more k n = ground (
    arith,
    check_session-some now key s w f,
    check_conversation-some id seen c g,
    conversation_found,
    check_lem c random,
    next_lem choose c (p ∷ ps) random,
    n,
  )

  hop_unpicked :
      (p : SessionInfo) (ps : List SessionInfo)
      → eqb (length c.routes) 3 ≡ false
      → Sessions.get_proxies key seen.session_manager ≡ some (p ∷ ps)
      → random_next_route choose c (p ∷ ps) ≡ ok none
      → IsRefused (route now uuid choose key id s) seen
  unfolding route Session.get_proxies
  hop_unpicked p ps more k n = ground (
    arith,
    check_session-some now key s w f,
    check_conversation-some id seen c g,
    conversation_found,
    check_lem c random,
    next_lem choose c (p ∷ ps) random,
    n,
  )

  hop_none :
      eqb (length c.routes) 3 ≡ false
      → Sessions.get_proxies key seen.session_manager ≡ none
      → IsRefused (route now uuid choose key id s) seen
  unfolding route Session.get_proxies
  hop_none more k = ground (
    arith,
    check_session-some now key s w f,
    check_conversation-some id seen c g,
    conversation_found,
    check_lem c random,
  )

  -- What such a request ends with: a refusal, or the hop to a stored session.
  pub known-cases :
      IsRefused (route now uuid choose key id s) seen
      ⊎ ((q : SessionInfo) × (last : Bool) × IsStored q seen.session_manager
          × (route now uuid choose key id s ≡ handle_route now uuid id q last seen))
  known-cases = elim (Bool-cases (eqb (length c.routes) 3)) [
    | inl three ↦ elim (Option-cases (Sessions.get_client c.recipient seen.session_manager)) [
      | inl k ↦ inl (final_none three k)
      | inr (q, k) ↦
          inr (
            q,
            true,
            get_client-IsStored c.recipient seen.session_manager q k,
            final_steps q three k,
          )
    ]
    | inr more ↦ elim (Option-cases (Sessions.get_proxies key seen.session_manager)) [
      | inl k ↦ inl (hop_none more k)
      | inr ([], k) ↦ absurd (get_proxies-ne-nil key seen.session_manager [] k refl)
      | inr (x ∷ xs, k) ↦
          let (o, n) = next-some choose c x xs in
          elim (Option-cases o) [
            | inl e ↦ inl (hop_unpicked x xs more k (n ∙ ap ok e))
            | inr (q, e) ↦
                let picked = n ∙ ap ok e in
                let (_, j, w, _, _, f, v) =
                  (get_proxies-exact key seen.session_manager (x ∷ xs) k q).0
                    (next_mem choose c x xs q picked) in
                inr (q, false, (j, w, f, v), hop_steps q x xs more k picked)
          ]
    ]
  ]

module _ (now : ℕ) (uuid : String) (choose : Choose) (key id : String) (s : Controller) where
  pub route_no_session :
      Dict.get s.session_manager.sessions key ≡ none → IsRefused (route now uuid choose key id s) s
  unfolding route
  route_no_session f = ground (arith, check_session-none now key s f)

  pub route_no_conversation :
      (w : Wrapped)
      → Dict.get s.session_manager.sessions key ≡ some w
      → Routes.get_conversation id s.route_manager ≡ none
      → IsRefused (route now uuid choose key id s) (touch now key w s)
  unfolding route
  route_no_conversation w f g =
      ground
        (arith, check_session-some now key s w f, check_conversation-none id (touch now key w s) g)
