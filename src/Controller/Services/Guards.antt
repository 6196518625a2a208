-- ===== src/Controller/Services/Guards.antt =====
-- The module `guards` of controller/src/services/mod.rs.
pub mod Facts
use fuzzy_chat.Prelude.{ℕ, String, not_found, unauthenticated, status, ok_or, pure, ◌>>=◌, ◌>>◌}
use fuzzy_chat.Controller.State.{Handler}
use fuzzy_chat.Controller.Session
use fuzzy_chat.Controller.Routing

unfoldable pub check_session : ℕ → String → Handler Unit
unfolding Session.get_session
check_session now access_key = do
  found ← Session.get_session now access_key
  ok_or (status unauthenticated "Invalid access key") found
  pure tt

unfoldable pub check_conversation : String → Handler Unit
unfolding Routing.get_conversation
check_conversation id = do
  found ← Routing.get_conversation id
  ok_or (status not_found "Invalid conversation") found
  pure tt
