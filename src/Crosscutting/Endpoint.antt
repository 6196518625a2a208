-- ===== src/Crosscutting/Endpoint.antt =====
-- Endpoints: crosscutting/src/networking.rs, and what `ConnectionSettings` of
-- crosscutting/src/lib.rs makes with it. The texts of numbers, by `std`, and the parser of the `http` crate are
-- arguments.
use fuzzy_chat.Prelude.{ℕ, String, Option, Outcome, if_let, ok, err, panic}
use Prim.Native.String as Text
use fuzzy_chat.Crosscutting.Networking.{SocketAddr}
use fuzzy_chat.Crosscutting.Component.{ConnectionSettings}

pub record UriText (Uri : Type 0) : Type 0 where
  pub to_string : ℕ → String
  pub try_from : String → Option Uri

-- The texts of numbers and the parser of addresses, of `std`.
pub record AddrText : Type 0 where
  pub to_string : ℕ → String
  pub parse : String → Option SocketAddr

module _ (t : AddrText) where
  unfoldable pub to_socket_address : String → ℕ → Outcome String SocketAddr
  to_socket_address ip port =
      if_let (t.parse (Text.◌++◌ ip (Text.◌++◌ ":" (t.to_string port)))) ok
        (err "invalid socket address syntax")

  -- `unwrap`
  abbrev valid : {E : Type 0} → Outcome String SocketAddr → Outcome E SocketAddr
  valid (ok address) = ok address
  valid _ = panic

  unfoldable pub get_public_socket_address :
      {E : Type 0} → ConnectionSettings → Outcome E SocketAddr
  unfolding to_socket_address
  get_public_socket_address settings = valid (to_socket_address settings.ip settings.port)

  unfoldable pub get_local_socket_address : {E : Type 0} → ConnectionSettings → Outcome E SocketAddr
  unfolding to_socket_address
  get_local_socket_address settings = valid (to_socket_address "0.0.0.0" settings.port)

module _ {Uri : Type 0} (t : UriText Uri) where
  unfoldable pub to_endpoint : String → String → ℕ → Outcome String Uri
  to_endpoint scheme ip port =
      if_let
        (t.try_from
          (Text.◌++◌ scheme (Text.◌++◌ "://" (Text.◌++◌ ip (Text.◌++◌ ":" (t.to_string port))))))
        ok (err "Invalid endpoint URI")

  unfoldable pub to_https_endpoint : String → ℕ → Outcome String Uri
  unfolding to_endpoint
  to_https_endpoint ip port = to_endpoint "https" ip port

  -- `to_https_endpoint(...).unwrap()`
  unfoldable pub get_public_endpoint : {E : Type 0} → ConnectionSettings → Outcome E Uri
  unfolding to_https_endpoint
  get_public_endpoint settings = elim (to_https_endpoint settings.ip settings.port) [
    | ok uri ↦ ok uri
    | err e ↦ panic
    | panic ↦ panic
  ]
