-- ===== src/Controller/Services/Routes/Stored.antt =====
-- What `route` of route_service.rs has stored when it answers.
use fuzzy_chat.Prelude.{
  ℕ, ◌+◌, ◌≡◌, String, ok, ok-injective, arith, refl, some, none, Bool, eqb, length, true, false,
  ◌++◌, ◌∷◌, [], Outcome, ap, sym, ◌∙◌, inl, inr, Option-cases, Bool-cases, code_of, not_found,
  Status,
}
use mathlib.Core.Path.{subst}
use fuzzy_chat.Prelude.Dict
use fuzzy_chat.Prelude.Dict.{get-insert_self}
use fuzzy_chat.Prelude.Texts.Laws.{List-cases}
use fuzzy_chat.Controller.Models.{Route, RouteResponse, SessionInfo, to_connection_settings}
use fuzzy_chat.Controller.State.{Controller}
use fuzzy_chat.Controller.Storage.Expiration.{wrap}
use fuzzy_chat.Controller.Storage.Times.{routes_expiration_time}
use fuzzy_chat.Controller.Storage.Routes
use fuzzy_chat.Controller.Storage.Sessions
use fuzzy_chat.Controller.Routing.Strategy.{Choose}
use fuzzy_chat.Controller.Routing.Strategy.Choice.{IsChoice}
use fuzzy_chat.Controller.Services.Routes.{route}
use fuzzy_chat.Controller.Services.Routes.Hops.{
  Ready, answer, seen, hopped, route_final, route_final_none, route_hop, route_hop_none,
}

-- The route that an answer tells.
abbrev pub told : RouteResponse → Route
told a = record {
  on_ip_address = a.ip_address;
  on_port_number = a.port_number;
  public_key = a.public_key;
  domain_name = a.domain_name;
  nonce = a.nonce;
  end_route = a.end_route;
}

not_code : {A : Type 0} (x : Outcome Status A) (a : A) → code_of x ≡ some not_found → ¬ (x ≡ ok a)
not_code x a e f = cc (e, ap code_of f)

no_empty_offer :
    (key : String) (r : Sessions.SessionRepository) → ¬ (Sessions.get_proxies key r ≡ some [])
unfolding Sessions.get_proxies
no_empty_offer key r e =
    elim (List-cases (Sessions.other_sessions key r.sessions (Dict.entries r.proxies))) [
      | inl f ↦ ground (arith, e, f)
      | inr (p, ps, f) ↦ ground (arith, e, f)
    ]

module _ (now : ℕ) (uuid : String) (choose : Choose) (key id : String) (s : Controller)
    (r : Ready key id s) (fresh : Dict.get s.route_manager.routes uuid ≡ none) where
  -- The routes have what the answer tells, under the new nonce and for a minute, and the conversation
  -- lists it last.
  abbrev pub Stored : RouteResponse → Controller → Type 0
  Stored a q =
      (a.nonce ≡ uuid)
      × (a.end_route ≡ eqb (length r.conversation.value.routes) 3)
      × (Dict.get q.route_manager.routes uuid
          ≡ some (record { value = told a; expires_at = now + 60000; expiration_time = 60000 }))
      × (Dict.get q.route_manager.conversations id
          ≡ some (record r.conversation {
            value = record r.conversation.value {
              routes = r.conversation.value.routes ++ told a ∷ [];
            };
          }))

  hopped-Stored :
      (q : SessionInfo) (b : Bool)
      → eqb (length r.conversation.value.routes) 3 ≡ b
      → Stored (answer q uuid b) (hopped now uuid choose key id s r fresh q b)
  unfolding Routes.set_route to_connection_settings
  hopped-Stored q b e = (
    refl,
    sym e,
    ground (
      arith,
      fresh,
      r.has_conversation,
      get-insert_self s.route_manager.routes uuid
          (wrap now (told (answer q uuid b)) routes_expiration_time),
    ),
    ground (
      arith,
      fresh,
      r.has_conversation,
      get-insert_self s.route_manager.conversations id
          (Routes.push_route (told (answer q uuid b)) r.conversation),
    ),
  )

  answered-Stored :
      (q : SessionInfo) (b : Bool) (a : RouteResponse)
      → eqb (length r.conversation.value.routes) 3 ≡ b
      → route now uuid choose key id s
        ≡ (ok (answer q uuid b), hopped now uuid choose key id s r fresh q b)
      → (route now uuid choose key id s).0 ≡ ok a
      → Stored a (route now uuid choose key id s).1
  answered-Stored q b a n f e =
      let same =
        ok-injective {E = Status} (answer q uuid b) a
          (sym (ap (λ (x : Outcome Status RouteResponse × Controller). x.0) f) ∙ e) in
      subst (Stored a) (sym (ap (λ (x : Outcome Status RouteResponse × Controller). x.1) f)) (
        subst (λ x. Stored x (hopped now uuid choose key id s r fresh q b)) same
          (hopped-Stored q b n))

  -- A session asks for a route of a stored conversation of the random strategy, with a new nonce, and
  -- the random choice is one of its range. Whenever it is answered, the answer has that nonce, and is
  -- marked as the end exactly if the conversation had three routes; the routes then have, under the
  -- nonce and for a minute, what the answer tells, and the conversation lists it last.
  pub route_stores :
      IsChoice choose
      → (a : RouteResponse) → (route now uuid choose key id s).0 ≡ ok a
      → Stored a (route now uuid choose key id s).1
  route_stores h a e = elim (Bool-cases (eqb (length r.conversation.value.routes) 3)) [
    | inl three ↦
        elim (Option-cases (
          Sessions.get_client r.conversation.value.recipient
            (seen now uuid choose key id s r fresh).session_manager)) [
              | inl missing ↦ absurd (
                  not_code _ a
                    (route_final_none now uuid choose key id s r fresh (ground (arith, three))
                      missing).0
                    e)
              | inr (q, found) ↦
                  answered-Stored q true a three
                    (route_final now uuid choose key id s r fresh q (ground (arith, three)) found) e
            ]
    | inr more ↦
        elim (Option-cases
          (Sessions.get_proxies key (seen now uuid choose key id s r fresh).session_manager)) [
            | inl missing ↦ absurd (
                not_code _ a
                  (route_hop_none now uuid choose key id s r fresh (λ n. ground (arith, more, n))
                    missing).0
                  e)
            | inr (ps, found) ↦ elim (List-cases ps) [
              | inl nil ↦ absurd (no_empty_offer key _ (found ∙ ap (λ x. some x) nil))
              | inr (p, rest, cons) ↦
                  let (q, _, f) =
                    route_hop now uuid choose key id s r fresh h p rest
                      (λ n. ground (arith, more, n)) (found ∙ ap (λ x. some x) cons) in
                  answered-Stored q false a more f e
            ]
          ]
  ]
