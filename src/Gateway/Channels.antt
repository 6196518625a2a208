-- ===== src/Gateway/Channels.antt =====
-- How the gRPC clients of gateway/src and proxy/src/clients come to their channels: `initialize` of
-- each. `tonic` itself, which makes a TLS configuration and connects, is an argument, and so is what
-- the generated stub of a service does over a channel.
pub mod Route
pub mod Proxy
pub mod Auth
use fuzzy_chat.Prelude.{
  ℕ, String, Option, none, some, List, Exec, Outcome, ok, lift, unwrap, ◌>>=◌, ◌>>◌,
}
use fuzzy_chat.Crosscutting.Component.{Component}
use fuzzy_chat.Crosscutting.Endpoint.{UriText, get_public_endpoint}
use fuzzy_chat.Crosscutting.Settings.{System, component_settings}

-- `ClientTlsConfig`, of a CA certificate and a domain name.
pub record ClientTlsConfig : Type 0 where
  pub ca_certificate : List ℕ
  pub domain_name : String

-- `Channel::builder(uri).tls_config(c)` and `connect`, with the error's text where they fail.
pub record Transport (S Uri Endpoint Channel : Type 0) : Type 0 where
  pub tls_config : Uri → ClientTlsConfig → Outcome String Endpoint
  pub connect : Endpoint → Exec S String Channel

-- A client, and what it reaches.
pub record Holding (C S : Type 0) : Type 0 where
  pub client : C
  pub world : S

module _ {C S A : Type 0} where
  abbrev pub reaching : Exec S String A → Exec (Holding C S) String A
  reaching m h = ((m h.world).0, record h { world = (m h.world).1 })

  -- `self.client.as_mut().unwrap()`, and a call of its stub.
  abbrev pub over :
      {Channel : Type 0}
      → Option Channel
      → (Channel → Exec S String A)
      → Exec (Holding C S) String A
  over o call = unwrap o >>= λ channel. reaching (call channel)

module _ {S Uri Endpoint Channel : Type 0} (t : Transport S Uri Endpoint Channel) where
  unfoldable pub open_channel : Uri → List ℕ → String → Exec S String Channel
  open_channel uri certificate domain_name = do
    endpoint ←
        lift (t.tls_config uri (record { ca_certificate = certificate; domain_name = domain_name }))
    t.connect endpoint

  -- The channel to the controller that the settings name. An endpoint that is no URI panics.
  unfoldable pub controller_channel : UriText Uri → System → Exec S String Channel
  unfolding component_settings get_public_endpoint open_channel
  controller_channel uris system = do
    settings ← lift (component_settings Component.controller system).0
    uri ← lift (get_public_endpoint uris settings)
    open_channel uri settings.certificate settings.domain_name
