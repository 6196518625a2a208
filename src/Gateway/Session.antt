-- ===== src/Gateway/Session.antt =====
-- gateway/src/auth_client.rs: `ClientSession`, and `AuthClient` over the gRPC stub of the controller's
-- authentication service.
use fuzzy_chat.Prelude.{
  String, Option, none, some, Bool, ◌&&◌, is_some, unwrap_or, Exec, map_err, unwrap, pure, ◌>>=◌,
  ◌>>◌, ok,
}
use fuzzy_chat.Prelude.Int.{ℤ}
use Prim.Native.String as Text
use fuzzy_chat.Crosscutting.Component.{
  Component, ConnectionSettings, Credentials, ComponentDescriptor, to_i32, from_descriptor,
  get_connection_settings, get_credentials,
}
use fuzzy_chat.Controller.Models.{LoginRequest, LoginResponse, PingResponse}

pub record ClientSession : Type 0 where
  pub access_key : Option String
  pub uid : Option String

-- `ClientSession::default`
abbrev pub no_session : ClientSession
no_session = record { access_key = none; uid = none }

unfoldable pub set_session : String → String → ClientSession → ClientSession
set_session uid access_key session = record { access_key = some access_key; uid = some uid }

unfoldable pub is_authenticated : ClientSession → Bool
is_authenticated session = is_some session.uid && is_some session.access_key

-- The trait `Authenticator`.
pub record Authenticator (S : Type 0) : Type 0 where
  pub login : Exec S String Unit
  pub logout : Exec S String Unit
  pub ping : Exec S String (String × ℤ)
  pub get_session : S → ClientSession
  pub is_authenticated : S → Bool

-- The methods of the generated `AuthServiceClient`, which fail with the text of a status.
pub record AuthService (S : Type 0) : Type 0 where
  pub login : LoginRequest → Exec S String LoginResponse
  pub logout : String → Exec S String Unit
  pub ping : String → Exec S String PingResponse

-- The client, and what its stub reaches.
pub record AuthClient (S : Type 0) : Type 0 where
  pub session : ClientSession
  pub client : Option (AuthService S)
  pub credentials : Credentials
  pub connection_settings : ConnectionSettings
  pub component_type : Component
  pub world : S

-- `AuthClient::new`
unfoldable pub new_client : {S : Type 0} → ClientSession → ComponentDescriptor → S → AuthClient S
unfolding from_descriptor get_credentials get_connection_settings
new_client session descriptor world = record {
  session = session;
  client = none;
  credentials = get_credentials descriptor;
  connection_settings = get_connection_settings descriptor;
  component_type = from_descriptor descriptor;
  world = world;
}

module _ {S : Type 0} where
  abbrev pub calls : {A : Type 0} → Exec S String A → Exec (AuthClient S) String A
  calls m c = ((m c.world).0, record c { world = (m c.world).1 })

  abbrev pub login_request : AuthClient S → LoginRequest
  login_request c = record {
    uid = c.credentials.uid;
    pwd = c.credentials.pwd;
    on_ip = c.connection_settings.ip;
    on_port = c.connection_settings.port;
    public_key = c.connection_settings.certificate;
    domain_name = c.connection_settings.domain_name;
    component_type = to_i32 c.component_type;
  }

  -- `initialize`: `connect` reads the settings and opens the channel.
  unfoldable pub initialize : Exec S String (AuthService S) → Exec (AuthClient S) String Unit
  initialize connect = do service ← calls connect; λ c. (ok tt, record c { client = some service })

  -- Without a client it panics.
  unfoldable pub login : Exec (AuthClient S) String Unit
  unfolding set_session
  login c =
      (do
        service ← unwrap c.client
        response ←
            map_err (λ status. Text.◌++◌ "Login failed: " status)
              (calls (service.login (login_request c)))
        λ d. (
          ok tt,
          record d { session = set_session c.credentials.uid response.access_key d.session },
        ))
        c

  unfoldable pub logout : Exec (AuthClient S) String Unit
  logout c =
      (do
        service ← unwrap c.client
        map_err (λ status. Text.◌++◌ "Logout failed: " status)
            (calls (service.logout (unwrap_or c.session.access_key "")))
        λ d. (ok tt, record d { session = no_session }))
        c

  unfoldable pub ping : Exec (AuthClient S) String (String × ℤ)
  ping c =
      (do
        service ← unwrap c.client
        response ← calls (service.ping (unwrap_or c.session.access_key ""))
        pure (response.status, response.timestamp))
        c

  -- `impl Authenticator for AuthClient`
  unfoldable pub auth_client : Authenticator (AuthClient S)
  unfolding login logout ping is_authenticated
  auth_client = record {
    login = login;
    logout = logout;
    ping = ping;
    get_session = λ c. c.session;
    is_authenticated = λ c. is_authenticated c.session;
  }
