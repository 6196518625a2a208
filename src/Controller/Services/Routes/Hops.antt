-- ===== src/Controller/Services/Routes/Hops.antt =====
-- What `route` of route_service.rs answers, and what it stores.
use fuzzy_chat.Prelude.{
  ℕ, ◌≡◌, List, String, ok, arith, some, Bool, none, eqb, length, true, ◌++◌, ◌∷◌, [], code_of, ◌≢◌,
  not_found, false, get_elem?-mem,
}
use fuzzy_chat.Prelude.Dict
use fuzzy_chat.Controller.Models.{Conversation, RouteResponse, SessionInfo, to_connection_settings}
use fuzzy_chat.Controller.State.{Controller}
use fuzzy_chat.Controller.Storage.Expiration.{ExpirationWrapper}
use fuzzy_chat.Controller.Storage.Sessions
use fuzzy_chat.Controller.Storage.Sessions.Shrinks.{Wrapped}
use fuzzy_chat.Controller.Storage.Routes
use fuzzy_chat.Controller.Storage.Routes.Laws.{set_route_lem}
use fuzzy_chat.Controller.Session
use fuzzy_chat.Controller.Routing
use fuzzy_chat.Controller.Routing.{route_to}
use fuzzy_chat.Controller.Routing.Strategy.{Choose, random_next_route}
use fuzzy_chat.Controller.Services.Guards.{check_conversation}
use fuzzy_chat.Controller.Services.Guards.Facts.{touch, check_session-some}
use fuzzy_chat.Controller.Services.Routes.{route, handle_route}
use fuzzy_chat.Controller.Routing.Strategy.Choice.{IsChoice, random_next_route_lem}
use fuzzy_chat.Controller.Storage.Sessions.Lookup.{IsOtherProxy, get_proxies-exact}

-- The strategy that every conversation has.
pub check_lem :
    (c : Conversation)
    → c.routing_id ≡ 1
    → Routing.check_for_final_route c ≡ ok (eqb (length c.routes) 3)
unfolding Routing.check_for_final_route
check_lem c e = ground arith

pub next_lem :
    (choose : Choose) (c : Conversation) (ps : List SessionInfo)
    → c.routing_id ≡ 1
    → Routing.get_next_route choose c ps ≡ random_next_route choose c ps
unfolding Routing.get_next_route
next_lem choose c ps e = ground arith

-- The access key is that of a session, and the conversation is there.
pub record Ready (key id : String) (s : Controller) : Type 0 where
  pub session : Wrapped
  pub has_session : Dict.get s.session_manager.sessions key ≡ some session
  pub conversation : ExpirationWrapper Conversation
  pub has_conversation : Dict.get s.route_manager.conversations id ≡ some conversation
  pub random : conversation.value.routing_id ≡ 1

-- The answer that sends the caller to a session.
abbrev pub answer : SessionInfo → String → Bool → RouteResponse
answer q nonce end_route = record {
  ip_address = q.on_ip_address;
  port_number = q.on_port_number;
  public_key = q.public_key;
  domain_name = q.domain_name;
  nonce = nonce;
  end_route = end_route;
}

module _ (now : ℕ) (uuid : String) (choose : Choose) (key id : String) (s : Controller)
    (r : Ready key id s) (fresh : Dict.get s.route_manager.routes uuid ≡ none) where
  abbrev pub seen : Controller
  seen = touch now key r.session s

  -- The state in which the hop to a session is stored.
  abbrev pub hopped : SessionInfo → Bool → Controller
  hopped q end_route = record seen {
    route_manager =
        (Routes.set_route now id (route_to (to_connection_settings q) uuid end_route)
          s.route_manager).1;
  }

  handle_route_lem :
      (q : SessionInfo) (end_route : Bool)
      → handle_route now uuid id q end_route seen
        ≡ (ok (answer q uuid end_route), hopped q end_route)
  unfolding handle_route
  handle_route_lem q end_route = ground (
    arith,
    set_route_lem now id (route_to (to_connection_settings q) uuid end_route) r.conversation
        s.route_manager fresh r.has_conversation,
  )

  conversation_found : Routing.get_conversation id seen ≡ (ok (some r.conversation.value), seen)
  unfolding Routing.get_conversation Routes.get_conversation
  conversation_found = ground (arith, r.has_conversation)

  conversation_checked : check_conversation id seen ≡ (ok tt, seen)
  unfolding check_conversation
  conversation_checked = ground (arith, conversation_found)

  -- A session asks for a route of a stored conversation, with a new nonce: when the conversation has
  -- three routes and its recipient a session, the answer is that session, marked as the end, and the
  -- hop is stored.
  pub route_final :
      (q : SessionInfo)
      → length r.conversation.value.routes ≡ 3
      → Sessions.get_client r.conversation.value.recipient seen.session_manager ≡ some q
      → route now uuid choose key id s ≡ (ok (answer q uuid true), hopped q true)
  unfolding route
  route_final q three found = ground (
    arith,
    check_session-some now key s r.session r.has_session,
    conversation_checked,
    conversation_found,
    check_lem r.conversation.value r.random,
    handle_route_lem q true,
  )

  -- A session asks for a route of a stored conversation, with a new nonce: when the conversation
  -- has three routes and its recipient has no session, the answer is `not_found`, and only the
  -- asker's session is renewed.
  pub route_final_none :
      length r.conversation.value.routes ≡ 3
      → Sessions.get_client r.conversation.value.recipient seen.session_manager ≡ none
      → (code_of (route now uuid choose key id s).0 ≡ some not_found)
        × ((route now uuid choose key id s).1 ≡ seen)
  unfolding route Session.get_client
  route_final_none three missing = ground (
    arith,
    check_session-some now key s r.session r.has_session,
    conversation_checked,
    conversation_found,
    check_lem r.conversation.value r.random,
  )

  -- A session asks for a route of a stored conversation of the random strategy, with a new nonce: when
  -- the conversation has another number of routes than three, another proxy is known and the random
  -- choice is one of its range, the answer is the session of an indexed proxy other than the asker, not marked
  -- as the end, and the hop is stored.
  pub route_hop :
      IsChoice choose
      → (p : SessionInfo) (ps : List SessionInfo) → length r.conversation.value.routes ≢ 3
      → Sessions.get_proxies key seen.session_manager ≡ some (p ∷ ps)
      → (q : SessionInfo) × IsOtherProxy key seen.session_manager q
        × (route now uuid choose key id s ≡ (ok (answer q uuid false), hopped q false))
  unfolding route Session.get_proxies
  route_hop h p ps more found =
      let (i, q, e, g, _) = random_next_route_lem choose h r.conversation.value p ps in
      (
        q,
        (get_proxies-exact key seen.session_manager (p ∷ ps) found q).0
            (get_elem?-mem (p ∷ ps) i q g),
        ground (
          arith,
          check_session-some now key s r.session r.has_session,
          conversation_checked,
          conversation_found,
          check_lem r.conversation.value r.random,
          next_lem choose r.conversation.value (p ∷ ps) r.random,
          e,
          handle_route_lem q false,
        ),
      )

  -- A session asks for a route of a stored conversation, with a new nonce: when the conversation
  -- has another number of routes than three and no other proxy is known, the answer is
  -- `not_found`, and only the asker's session is renewed.
  pub route_hop_none :
      length r.conversation.value.routes ≢ 3
      → Sessions.get_proxies key seen.session_manager ≡ none
      → (code_of (route now uuid choose key id s).0 ≡ some not_found)
        × ((route now uuid choose key id s).1 ≡ seen)
  unfolding route Session.get_proxies
  route_hop_none more missing = ground (
    arith,
    check_session-some now key s r.session r.has_session,
    conversation_checked,
    conversation_found,
    check_lem r.conversation.value r.random,
  )

  -- In the state that stores a hop under a new nonce, the hop is found by that nonce, and its
  -- conversation, stored before, lists it last.
  pub hopped_lem :
      (q : SessionInfo) (end_route : Bool)
      → let route' = route_to (to_connection_settings q) uuid end_route in
        (Routes.get_route id uuid (hopped q end_route).route_manager ≡ some route')
        × (Routes.get_conversation id (hopped q end_route).route_manager
            ≡ some (record r.conversation.value {
              routes = r.conversation.value.routes ++ route' ∷ [];
            }))
  hopped_lem q end_route =
      let h =
        set_route_lem now id (route_to (to_connection_settings q) uuid end_route) r.conversation
          s.route_manager fresh r.has_conversation in
      (h.1, h.2)
