-- ===== src/Controller/Services/Auth.antt =====
-- controller/src/services/auth_service.rs: `AuthServiceImpl`. A `tonic` request is the caller's
-- address, where the transport knows it, and the message; the time stamp is an argument.
pub mod Login
pub mod Ping
use fuzzy_chat.Prelude.{
  ℕ, ◌%◌, ◌^◌, String, Bool, true, false, not, ◌||◌, Option, internal, invalid_argument,
  unauthenticated, status, ok_or, unwrap, lift, fail, pure, ◌>>=◌, ◌>>◌, ◌==◌, if◌then◌else◌,
  if_let, ok,
}
use fuzzy_chat.Prelude.Int.{ℤ}
use fuzzy_chat.Crosscutting.Component.{Component, from_i32, ConnectionSettings}
use fuzzy_chat.Crosscutting.Networking.{SocketAddr, same_addr}
use fuzzy_chat.Controller.Models.{LoginRequest, LoginResponse, PingResponse}
use fuzzy_chat.Controller.State.{Controller, Handler}
use fuzzy_chat.Controller.Session
use fuzzy_chat.Controller.Membership
use fuzzy_chat.Controller.Services.Guards.{check_session}

pub record Request (A : Type 0) : Type 0 where
  pub remote_addr : Option SocketAddr
  pub inner : A

unfoldable pub validate_credentials : String → String → Handler Bool
unfolding Membership.get_member
validate_credentials uid pwd = do
  member ← Membership.get_member uid
  pure (if_let member (λ m. m.pwd == pwd) false)

-- `check_session` locks the repository for its look-up, and `get_session` again. `meanwhile` is what
-- other requests do between the two.
unfoldable pub ping_amid : (Controller → Controller) → ℕ → ℤ → Request String → Handler PingResponse
unfolding check_session Session.get_session same_addr
ping_amid meanwhile now timestamp request = do
  client_ip ← ok_or (status internal "Could not get client IP address") request.remote_addr
  check_session now request.inner
  λ s. (ok tt, meanwhile s)
  found ← Session.get_session now request.inner
  session ← unwrap found
  if not (same_addr session.client_ip client_ip)
      then fail (status unauthenticated "Invalid connection")
      else pure (record { status = "PONG"; timestamp = timestamp })

-- Without others in between.
unfoldable pub ping : ℕ → ℤ → Request String → Handler PingResponse
unfolding ping_amid
ping = ping_amid (λ s. s)

abbrev pub is_controller : Component → Bool
is_controller Component.controller = true
is_controller _ = false

-- `on_port as u16`
abbrev pub login_settings : LoginRequest → ConnectionSettings
login_settings r = record {
  ip = r.on_ip;
  port = r.on_port % 2 ^ 16;
  domain_name = r.domain_name;
  certificate = r.public_key;
}

-- The uid is tested twice, as in the source.
unfoldable pub login : ℕ → String → Request LoginRequest → Handler LoginResponse
unfolding from_i32 validate_credentials Session.set_session
login now uuid request = do
  client_ip ← ok_or (status internal "Could not get client IP address") request.remote_addr
  let r = request.inner
  if (r.uid == "") || (r.uid == "")
      then fail (status invalid_argument "UID and PWD cannot be empty")
      else do
        component_type ← lift (from_i32 r.component_type)
        if is_controller component_type
            then fail (status invalid_argument "Invalid component type")
            else do
              valid ← validate_credentials r.uid r.pwd
              if valid
                  then (do
                    access_key ←
                        Session.set_session now uuid r.uid component_type client_ip
                          (login_settings r)
                    pure (record { access_key = access_key; message = "Login successful" }))
                  else fail (status unauthenticated "Invalid credentials")

unfoldable pub logout : ℕ → String → Handler Unit
unfolding check_session Session.remove_session
logout now access_key = do check_session now access_key; Session.remove_session access_key
