-- ===== src/Proxy/Server/Starting.antt =====
-- What has succeeded when a proxy runs.
use fuzzy_chat.Prelude.{
  String, Option, some, Exec, Outcome, ok, err, ok-injective, ◌≡◌, sym, ap, ◌∙◌, arith, status,
  unauthenticated, Outcome-cases, Bool-cases, inl, inr,
}
use mathlib.Core.Option.{some-injective}
use fuzzy_chat.Controller.Models.{StatusResponse}
use fuzzy_chat.Crosscutting.Component.{Component, ComponentDescriptor, get_connection_settings}
use fuzzy_chat.Crosscutting.Endpoint.{AddrText, UriText, get_local_socket_address}
use fuzzy_chat.Crosscutting.Networking.{SocketAddr}
use fuzzy_chat.Crosscutting.Serving.{Tonic, Serving, serve}
use fuzzy_chat.Crosscutting.Settings.{System, get_default_log_file_name, load, load_tls_identity}
use fuzzy_chat.Crosscutting.Settings.Logger.{Logging, setup_logger}
use fuzzy_chat.Gateway.Clients.{CommandRequest, Factories}
use fuzzy_chat.Gateway.Session.{
  Authenticator, AuthClient, AuthService, auth_client, new_client, no_session,
}
use fuzzy_chat.Gateway.Session as Gateway
use fuzzy_chat.Proxy.Server.{ProxyService, Running, start, start_server_handler, main}
use fuzzy_chat.Proxy.Service.{execute_command, check_authentication}

-- A server that listens has the address and the services that it was given, and the identity of the
-- files of the certificates.
pub serve_lem :
    {Service : Type 0} (tonic : Tonic) (system : System) (address : SocketAddr) (service : Service)
    (s : Serving Service)
    → serve tonic system address service ≡ ok s
    → (s.address ≡ address)
      × ((load_tls_identity "server.crt" "server.key" system).0 ≡ ok s.identity)
      × (tonic.listen address ≡ ok tt)
      × (s.service ≡ service)
unfolding serve
serve_lem tonic system address service s e =
    elim (Outcome-cases (load_tls_identity "server.crt" "server.key" system).0) [
      | inr (inl (x, p)) ↦ ground (arith, p, e)
      | inr (inr p) ↦ ground (arith, p, e)
      | inl (identity, p) ↦ elim (Bool-cases (tonic.tls_config identity)) [
        | inr q ↦ ground (arith, p, q, e)
        | inl q ↦ elim (Outcome-cases (tonic.listen address)) [
          | inr (inl (x, l)) ↦ ground (arith, p, q, l, e)
          | inr (inr l) ↦ ground (arith, p, q, l, e)
          | inl (done, l) ↦
              let same =
                ok-injective {E = String}
                  (record { address = address; identity = identity; service = service }) s
                  (ground (arith, p, q, l, e)) in
              (
                sym (ap (λ (x : Serving _). x.address) same),
                p ∙ ap (λ (x : Serving _). ok x.identity) same,
                l,
                sym (ap (λ (x : Serving _). x.service) same),
              )
        ]
      ]
    ]

module _ {S Uri Level : Type 0} (uris : UriText Uri) (addresses : AddrText)
    (factories : Factories (AuthClient S) Uri) (debug : StatusResponse → String) (tonic : Tonic)
    (logging : Logging Level) (hostname : Option String) (connect : Exec S String (AuthService S))
    (authenticator : Authenticator (AuthClient S)) (system : System) (world : S) where
  abbrev opened : ComponentDescriptor → AuthService S → AuthClient S
  opened d service = record (new_client no_session d world) {
    client = some service;
    world = (connect world).1;
  }

  abbrev local : ComponentDescriptor → Outcome String SocketAddr
  local d = get_local_socket_address addresses (get_connection_settings d)

  abbrev serving : SocketAddr → Option (Serving (ProxyService (AuthClient S)))
  serving address = start_server_handler uris factories debug tonic system address authenticator

  -- What was done before the signal is waited for.
  pub record Started (r : Running S) : Type 0 where
    pub descriptor : ComponentDescriptor
    pub loaded : (load Component.proxy system).0 ≡ ok descriptor
    pub service : AuthService S
    pub connected : (connect world).0 ≡ ok service
    pub client : r.client ≡ opened descriptor service
    pub address : SocketAddr
    pub at_port : local descriptor ≡ ok address
    pub served : serving address ≡ r.server

  start_steps :
      (r : Running S)
      → main uris addresses factories debug tonic logging hostname connect authenticator system
          world
        ≡ ok r
      → Started r
  unfolding main Gateway.initialize
  start_steps r e =
      elim (Outcome-cases
        (setup_logger logging (get_default_log_file_name hostname "proxy") system).0) [
          | inr (inl (x, p)) ↦ ground (arith, p, e)
          | inr (inr p) ↦ ground (arith, p, e)
          | inl (logger, p) ↦ elim (Outcome-cases (load Component.proxy system).0) [
            | inr (inl (x, q)) ↦ ground (arith, p, q, e)
            | inr (inr q) ↦ ground (arith, p, q, e)
            | inl (d, q) ↦ elim (Outcome-cases (connect world).0) [
              | inr (inl (x, c)) ↦ ground (arith, p, q, c, e)
              | inr (inr c) ↦ ground (arith, p, q, c, e)
              | inl (service, c) ↦ elim (Outcome-cases (local d)) [
                | inr (inl (x, a)) ↦ ground (arith, p, q, c, a, e)
                | inr (inr a) ↦ ground (arith, p, q, c, a, e)
                | inl (address, a) ↦
                    let same =
                      ok-injective {E = String}
                        (record { client = opened d service; server = serving address }) r
                        (ground (arith, p, q, c, a, e)) in
                    record {
                      descriptor = d;
                      loaded = q;
                      service = service;
                      connected = c;
                      client = sym (ap (λ (x : Running S). x.client) same);
                      address = address;
                      at_port = a;
                      served = ap (λ (x : Running S). x.server) same;
                    }
              ]
            ]
          ]
        ]

start_server_lem :
    {S Uri : Type 0} (uris : UriText Uri) (factories : Factories S Uri)
    (debug : StatusResponse → String) (tonic : Tonic) (system : System) (address : SocketAddr)
    (authenticator : Authenticator S) (server : Serving (ProxyService S))
    → start_server_handler uris factories debug tonic system address authenticator ≡ some server
    → serve tonic system address (execute_command uris factories authenticator debug) ≡ ok server
unfolding start_server_handler start
start_server_lem uris factories debug tonic system address authenticator server e =
    elim (Outcome-cases
      (serve tonic system address (execute_command uris factories authenticator debug))) [
        | inr (inl (x, v)) ↦ ground (arith, v, e)
        | inr (inr v) ↦ ground (arith, v, e)
        | inl (s, v) ↦ v ∙ ap (λ x. ok x) (some-injective _ _ (ground (arith, v, e)))
      ]

-- A client without a session is asked in vain.
no_session_refused :
    {S Uri : Type 0} (uris : UriText Uri) (factories : Factories (AuthClient S) Uri)
    (debug : StatusResponse → String) (request : CommandRequest) (c : AuthClient S)
    → c.session ≡ no_session
    → execute_command uris factories auth_client debug request c
      ≡ (err (status unauthenticated "Not authenticated"), c)
unfolding execute_command check_authentication auth_client Gateway.is_authenticated
no_session_refused uris factories debug request c e = ground (arith, e)

module _ {S Uri Level : Type 0} (uris : UriText Uri) (addresses : AddrText)
    (factories : Factories (AuthClient S) Uri) (debug : StatusResponse → String) (tonic : Tonic)
    (logging : Logging Level) (hostname : Option String) (connect : Exec S String (AuthService S))
    (system : System) (world : S) where
  -- For a proxy whose `main` comes to wait for the signal, with a server that listens: the descriptor
  -- has been loaded and the controller connected to; the server listens at the local address of that
  -- descriptor and with the identity of the files of the certificates; and with the client as it was
  -- left, which has not logged in yet, it refuses every command as unauthenticated and calls nothing.
  pub main_refuses :
      (r : Running S) (server : Serving (ProxyService (AuthClient S)))
      → main uris addresses factories debug tonic logging hostname connect auth_client system world
        ≡ ok r
      → r.server ≡ some server
      → (d : ComponentDescriptor) × (service : AuthService S) × ((load Component.proxy system).0
          ≡ ok d)
        × ((connect world).0 ≡ ok service)
        × (get_local_socket_address addresses {E = String} (get_connection_settings d)
            ≡ ok server.address)
        × ((load_tls_identity "server.crt" "server.key" system).0 ≡ ok server.identity)
        × ((request : CommandRequest)
            → server.service request r.client
              ≡ (err (status unauthenticated "Not authenticated"), r.client))
  unfolding new_client
  main_refuses r server e f =
      let h =
        start_steps uris addresses factories debug tonic logging hostname connect auth_client system
          world r e in
      let run =
        start_server_lem uris factories debug tonic system h.address auth_client server
          (h.served ∙ f) in
      let (a, i, _, v) = serve_lem tonic system h.address _ server run in
      (
        h.descriptor,
        h.service,
        h.loaded,
        h.connected,
        h.at_port ∙ ap (λ (x : SocketAddr). ok x) (sym a),
        i,
        λ request. rw v (
            no_session_refused uris factories debug request r.client
              (ap (λ (c : AuthClient S). c.session) h.client)),
      )
