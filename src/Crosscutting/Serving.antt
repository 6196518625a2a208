-- ===== src/Crosscutting/Serving.antt =====
-- How the components serve gRPC with TLS: what `start_server_handler` of the controller, the proxy and
-- the client share. `tonic`'s server is an argument: whether it takes an identity, and whether it can
-- listen at an address.
use fuzzy_chat.Prelude.{String, Bool, List, ℕ, Outcome, ok, err, panic, if◌then◌else◌}
use fuzzy_chat.Crosscutting.Networking.{SocketAddr}
use fuzzy_chat.Crosscutting.Settings.{System, load_tls_identity}

pub record Tonic : Type 0 where
  pub tls_config : List ℕ × List ℕ → Bool
  pub listen : SocketAddr → Outcome String Unit

-- A server that listens, with its identity and its services.
pub record Serving (Service : Type 0) : Type 0 where
  pub address : SocketAddr
  pub identity : List ℕ × List ℕ
  pub service : Service

-- An identity that cannot be read, or is not taken, panics.
unfoldable pub serve :
    {Service : Type 0} → Tonic → System → SocketAddr → Service → Outcome String (Serving Service)
unfolding load_tls_identity
serve tonic system address service = elim (load_tls_identity "server.crt" "server.key" system).0 [
  | ok identity ↦
      if tonic.tls_config identity
      then elim (tonic.listen address) [
        | ok _ ↦ ok (record { address = address; identity = identity; service = service })
        | err e ↦ err e
        | panic ↦ panic
      ]
      else panic
  | _ ↦ panic
]
