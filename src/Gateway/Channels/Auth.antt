-- ===== src/Gateway/Channels/Auth.antt =====
-- The channel of `AuthClient` of gateway/src/auth_client.rs.
use fuzzy_chat.Prelude.{String, Exec, lift, map_err, pure, ◌>>=◌}
use Prim.Native.String as Text
use fuzzy_chat.Crosscutting.Component.{Component}
use fuzzy_chat.Crosscutting.Endpoint.{UriText, get_public_endpoint}
use fuzzy_chat.Crosscutting.Settings.{System, component_settings}
use fuzzy_chat.Gateway.Channels.{Transport}
use fuzzy_chat.Gateway.Session.{AuthService}

-- What `AuthClient::initialize` connects with; `service` is the generated stub.
unfoldable pub connect :
    {S Uri Endpoint Channel : Type 0}
    → Transport S Uri Endpoint Channel
    → UriText Uri
    → System
    → (Channel → AuthService S)
    → Exec S String (AuthService S)
unfolding component_settings get_public_endpoint
connect t uris system service = do
  settings ← lift (component_settings Component.controller system).0
  uri ← lift (get_public_endpoint uris settings)
  endpoint ← lift (
      t.tls_config uri
        (record { ca_certificate = settings.certificate; domain_name = settings.domain_name }))
  channel ← map_err (λ e. Text.◌++◌ "Failed to connect to gRPC server: " e) (t.connect endpoint)
  pure (service channel)
