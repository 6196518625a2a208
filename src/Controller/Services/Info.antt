-- ===== src/Controller/Services/Info.antt =====
-- controller/src/services/info_service.rs
use fuzzy_chat.Prelude.{ℕ, ◌^◌, String, pure, ◌>>=◌, ◌>>◌, ltb, if◌then◌else◌}
use fuzzy_chat.Controller.Models.{StatusResponse}
use fuzzy_chat.Controller.State.{Handler}
use fuzzy_chat.Controller.Session
use fuzzy_chat.Controller.Services.Guards.{check_session}

-- `u32::try_from(n).unwrap_or_default()`
unfoldable pub to_u32 : ℕ → ℕ
to_u32 n = if ltb n (2 ^ 32) then n else 0

unfoldable pub network_status : String → ℕ → String → Handler StatusResponse
unfolding check_session Session.count_proxies Session.count_clients Session.count_controllers to_u32
network_status version now access_key = do
  check_session now access_key
  proxies_count ← Session.count_proxies
  clients_count ← Session.count_clients
  controllers_count ← Session.count_controllers
  pure (record {
    version = version;
    connected_clients = to_u32 clients_count;
    connected_proxies = to_u32 proxies_count;
    connected_controllers = to_u32 controllers_count;
  })
