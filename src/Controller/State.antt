-- ===== src/Controller/State.antt =====
-- The state of a controller: what its session, route and member managers keep. The managers of
-- controller/src/session.rs, routing.rs and membership.rs hold a repository each.
use fuzzy_chat.Prelude.{Exec, Status}
use fuzzy_chat.Controller.Storage.Sessions.{SessionRepository}
use fuzzy_chat.Controller.Storage.Routes.{RouteRepository}
use fuzzy_chat.Controller.Storage.Members.{MemberRepository}

pub record Controller : Type 0 where
  pub session_manager : SessionRepository
  pub route_manager : RouteRepository
  pub member_manager : MemberRepository

-- What an async method of the controller does: it gives back a value or a status, or panics.
abbrev pub Handler : Type 0 → Type 0
Handler A = Exec Controller Status A
