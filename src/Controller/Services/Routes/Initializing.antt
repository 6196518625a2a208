-- ===== src/Controller/Services/Routes/Initializing.antt =====
-- What `initialize` of route_service.rs stores.
use fuzzy_chat.Prelude.{ℕ, String, [], ◌≡◌, refl, none, some, ok, arith, ◌==◌, if◌then◌else◌}
use fuzzy_chat.Prelude.Dict
use fuzzy_chat.Prelude.Dict.{get-insert_self}
use fuzzy_chat.Controller.Models.{Conversation, new_conversation}
use fuzzy_chat.Controller.State.{Controller}
use fuzzy_chat.Controller.Storage.Expiration.{wrap, renew}
use fuzzy_chat.Controller.Storage.Times.{conversations_expiration_time}
use fuzzy_chat.Controller.Storage.Sessions.Shrinks.{Wrapped}
use fuzzy_chat.Controller.Storage.Routes
use fuzzy_chat.Controller.Routing
use fuzzy_chat.Controller.Routing.{without_dashes}
use fuzzy_chat.Controller.Routing.Strategy.{strategies, get_routing_id}
use fuzzy_chat.Controller.Services.Guards.Facts.{
  touch, get-touch, check_session-some, get_session-some,
}
use fuzzy_chat.Controller.Services.Routes.{initialize, controller_uid}
use fuzzy_chat.Controller.Services.Routes.Hops.{Ready}

-- The conversation that a sender begins with a recipient; without one it is the controller.
abbrev pub begun : String → String → String → Conversation
begun uuid sender recipient = record {
  id = without_dashes uuid;
  sender = sender;
  recipient = if recipient == "" then controller_uid else recipient;
  routing_id = 1;
  routes = [];
}

-- The state in which a conversation is stored.
abbrev pub with_conversation : ℕ → Conversation → Controller → Controller
with_conversation now c s = record s {
  route_manager = record s.route_manager {
    conversations =
        Dict.insert s.route_manager.conversations c.id (wrap now c conversations_expiration_time);
  };
}

stored_lem :
    (now : ℕ) (uuid sender recipient : String) (s : Controller)
    → Dict.get s.route_manager.conversations (without_dashes uuid) ≡ none
    → Routing.initialize now uuid sender (if recipient == "" then controller_uid else recipient) s
      ≡ (ok (some (without_dashes uuid)), with_conversation now (begun uuid sender recipient) s)
unfolding Routing.initialize Routing.set_conversation Routes.set_conversation strategies
    get_routing_id new_conversation
stored_lem now uuid sender recipient s e = ground arith

module _ (now : ℕ) (uuid key recipient : String) (s : Controller) (w : Wrapped)
    (has_session : Dict.get s.session_manager.sessions key ≡ some w)
    (fresh : Dict.get s.route_manager.conversations (without_dashes uuid) ≡ none) where
  -- The state that the request leaves.
  abbrev pub initialized : Controller
  initialized =
      with_conversation now (begun uuid w.value.uid recipient)
        (touch now key (renew now w) (touch now key w s))

  -- A session begins a conversation under a new id: the answer is that id, the uuid without its
  -- dashes, and the conversation is stored, from the session's uid to the recipient, or to the
  -- controller if none is named, without routes.
  pub initialize_lem : initialize now uuid key recipient s ≡ (ok (without_dashes uuid), initialized)
  unfolding initialize
  initialize_lem = ground (
    arith,
    check_session-some now key s w has_session,
    get_session-some now key (touch now key w s) (renew now w) (get-touch now key s w),
    stored_lem now uuid w.value.uid recipient (touch now key (renew now w) (touch now key w s))
        fresh,
  )

  -- So a route of the conversation can be asked for.
  unfoldable pub initialized-Ready : Ready key (without_dashes uuid) initialized
  initialized-Ready = record {
    session = renew now (renew now w);
    has_session = get-touch now key (touch now key w s) (renew now w);
    conversation = wrap now (begun uuid w.value.uid recipient) conversations_expiration_time;
    has_conversation = get-insert_self s.route_manager.conversations (without_dashes uuid) _;
    random = refl;
  }
