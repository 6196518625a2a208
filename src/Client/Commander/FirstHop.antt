-- ===== src/Client/Commander/FirstHop.antt =====
-- Where a client's message goes first, over a controller.
use fuzzy_chat.Prelude.{
  ℕ, String, List, ◌∷◌, ◌≢◌, refl, length, ◌≡◌, none, some, Outcome, ok, err, panic, arith, Status,
  false, Outcome-cases, inl, inr,
}
use fuzzy_chat.Prelude.Dict
use Prim.Native.String as Text
use fuzzy_chat.Controller.Services.Routes as Services
use fuzzy_chat.Controller.Models.{SessionInfo, RouteResponse}
use fuzzy_chat.Controller.State.{Controller, Handler}
use fuzzy_chat.Controller.Routing.{without_dashes}
use fuzzy_chat.Controller.Routing.Strategy.{Choose}
use fuzzy_chat.Controller.Routing.Strategy.Choice.{IsChoice}
use fuzzy_chat.Controller.Storage.Sessions
use fuzzy_chat.Controller.Storage.Sessions.Lookup.{IsOtherProxy}
use fuzzy_chat.Controller.Storage.Sessions.Shrinks.{Wrapped}
use fuzzy_chat.Controller.Services.Routes.Hops.{answer, seen, hopped, route_hop}
use fuzzy_chat.Controller.Services.Routes.Initializing.{
  initialized, initialize_lem, initialized-Ready,
}
use fuzzy_chat.Crosscutting.Endpoint.{UriText, to_https_endpoint}
use fuzzy_chat.Gateway.Clients.{Factories}
use fuzzy_chat.Gateway.RouteClient.{route_client, reaches}
use fuzzy_chat.Client.Commander.{Route, initialize}

-- The route that an answer of the controller gives, where its endpoint is a `Uri`.
abbrev pub route_via :
    {Uri : Type 0} → RouteResponse → String → Outcome String Uri → Outcome String (Route Uri)
route_via r id (ok uri) = ok (record {
  conversation_id = id;
  nonce = r.nonce;
  public_key = r.public_key;
  domain_name = r.domain_name;
  uri = uri;
})
route_via r id (err e) = err e
route_via r id panic = panic

-- The steps of `initialize`, when a router answers.
pub initialize_steps :
    {S Uri : Type 0} (uris : UriText Uri) (f : Factories S Uri) (key recipient id : String)
    (r : RouteResponse) (s begun answered : S)
    → f.get_router.initialize s ≡ (ok tt, s)
    → f.get_router.init_conversation key recipient s ≡ (ok id, begun)
    → f.get_router.get_route id key begun ≡ (ok r, answered)
    → initialize uris f key recipient s
      ≡ (route_via r id (to_https_endpoint uris r.ip_address r.port_number), answered)
unfolding initialize
initialize_steps uris f key recipient id r s begun answered a b c =
    elim (Outcome-cases (to_https_endpoint uris r.ip_address r.port_number)) [
      | inl (uri, e) ↦ ground (arith, a, b, c, e)
      | inr (inl (t, e)) ↦ ground (arith, a, b, c, e)
      | inr (inr e) ↦ ground (arith, a, b, c, e)
    ]

reaches-ok :
    {A : Type 0} (show : Status → String) (lost : String) (m : Handler A) (a : A) (s q : Controller)
    → m s ≡ (ok a, q)
    → reaches show lost m s ≡ (ok a, q)
reaches-ok show lost m a s q e = rw e

module _ {Uri : Type 0} (uris : UriText Uri) (others : Factories Controller Uri) (now : ℕ)
    (conversation_uuid uuid : String) (choose : Choose) (show : Status → String) (lost : String)
    (key recipient : String) (s : Controller) (w : Wrapped)
    (has_session : Dict.get s.session_manager.sessions key ≡ some w)
    (new_id : Dict.get s.route_manager.conversations (without_dashes conversation_uuid) ≡ none)
    (new_nonce : Dict.get s.route_manager.routes uuid ≡ none) where
  -- The clients of a client whose router reaches the controller.
  abbrev pub clients : Factories Controller Uri
  clients = record others { get_router = route_client now conversation_uuid uuid choose show lost }

  abbrev pub begun_at : Controller
  begun_at = initialized now conversation_uuid key recipient s w has_session new_id

  abbrev pub seen_at : Controller
  seen_at =
      seen now uuid choose key (without_dashes conversation_uuid) begun_at
        (initialized-Ready now conversation_uuid key recipient s w has_session new_id) new_nonce

  abbrev pub hopped_at : SessionInfo → Controller
  hopped_at q =
      hopped now uuid choose key (without_dashes conversation_uuid) begun_at
        (initialized-Ready now conversation_uuid key recipient s w has_session new_id) new_nonce q
        false

  no_routes :
      length
        (initialized-Ready now conversation_uuid key recipient s w has_session
          new_id).conversation.value.routes
      ≢ 3
  unfolding initialized-Ready
  no_routes z = omega (arith, z)

  -- A client with a session sends a message with a new id and a new nonce, when a proxy other than
  -- itself is known and the random choice is one of its range: it begins the conversation, and its
  -- first hop is to an indexed proxy other than itself, in the state that stores the hop; it fails
  -- only where the address of that proxy is no `Uri`.
  pub first_hop :
      IsChoice choose
      → (p : SessionInfo) (ps : List SessionInfo)
      → Sessions.get_proxies key seen_at.session_manager ≡ some (p ∷ ps)
      → (q : SessionInfo) × IsOtherProxy key seen_at.session_manager q
        × (initialize uris clients key recipient s ≡ (
          route_via
              (answer q uuid false)
              (without_dashes conversation_uuid)
              (to_https_endpoint uris q.on_ip_address q.on_port_number),
          hopped_at q,
        ))
  unfolding route_client
  first_hop h p ps found =
      let (q, other, e) =
        route_hop now uuid choose key (without_dashes conversation_uuid) begun_at
          (initialized-Ready now conversation_uuid key recipient s w has_session new_id) new_nonce h
          p ps no_routes found in
      (
        q,
        other,
        initialize_steps uris clients key recipient (without_dashes conversation_uuid)
            (answer q uuid false) s begun_at (hopped_at q) refl
            (reaches-ok (λ t. Text.◌++◌ "Impossible to initialize the conversation: " (show t)) lost
              (Services.initialize now conversation_uuid key recipient)
              (without_dashes conversation_uuid) s begun_at
              (initialize_lem now conversation_uuid key recipient s w has_session new_id))
            (reaches-ok (λ t. Text.◌++◌ "Impossible to get a route: " (show t)) lost
              (Services.route now uuid choose key (without_dashes conversation_uuid))
              (answer q uuid false) begun_at (hopped_at q) e),
      )
