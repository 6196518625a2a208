-- ===== src/Controller/Services/Guards/Facts.antt =====
-- What the guards of controller/src/services/mod.rs do to the state, by cases on the access key.
use fuzzy_chat.Prelude.{
  ℕ, String, ◌≡◌, none, some, arith, ok, err, status, not_found, unauthenticated,
}
use fuzzy_chat.Prelude.Dict
use fuzzy_chat.Prelude.Dict.{get-insert_self}
use fuzzy_chat.Controller.Models.{Conversation}
use fuzzy_chat.Controller.State.{Controller}
use fuzzy_chat.Controller.Storage.Expiration.{renew}
use fuzzy_chat.Controller.Storage.Sessions.Shrinks.{Wrapped}
use fuzzy_chat.Controller.Storage.Routes
use fuzzy_chat.Controller.Session
use fuzzy_chat.Controller.Services.Guards.{check_session, check_conversation}

-- The state in which a session has been renewed.
abbrev pub touch : ℕ → String → Wrapped → Controller → Controller
touch now key w s = record s {
  session_manager = record s.session_manager {
    sessions = Dict.insert s.session_manager.sessions key (renew now w);
  };
}

module _ (now : ℕ) (key : String) (s : Controller) where
  pub check_session-none :
      Dict.get s.session_manager.sessions key ≡ none
      → check_session now key s ≡ (err (status unauthenticated "Invalid access key"), s)
  unfolding check_session
  check_session-none e = ground arith

  pub check_session-some :
      (w : Wrapped)
      → Dict.get s.session_manager.sessions key ≡ some w
      → check_session now key s ≡ (ok tt, touch now key w s)
  unfolding check_session
  check_session-some w e = ground arith

  pub get_session-some :
      (w : Wrapped)
      → Dict.get s.session_manager.sessions key ≡ some w
      → Session.get_session now key s ≡ (ok (some w.value), touch now key w s)
  unfolding Session.get_session
  get_session-some w e = ground arith

  pub get-touch :
      (w : Wrapped) → Dict.get (touch now key w s).session_manager.sessions key ≡ some (renew now w)
  get-touch w = get-insert_self s.session_manager.sessions key (renew now w)

module _ (id : String) (s : Controller) where
  pub check_conversation-none :
      Routes.get_conversation id s.route_manager ≡ none
      → check_conversation id s ≡ (err (status not_found "Invalid conversation"), s)
  unfolding check_conversation
  check_conversation-none e = ground arith

  pub check_conversation-some :
      (c : Conversation)
      → Routes.get_conversation id s.route_manager ≡ some c
      → check_conversation id s ≡ (ok tt, s)
  unfolding check_conversation
  check_conversation-some c e = ground arith
