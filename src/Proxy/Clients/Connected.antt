-- ===== src/Proxy/Clients/Connected.antt =====
-- What the clients of gateway/src and proxy/src/clients do before and after `initialize`.
use Prim.Native.String as Text
use fuzzy_chat.Prelude.{
  ℕ, none, String, some, List, Outcome, ok, err, panic, ◌≡◌, ◌≢◌, refl, arith, ◌>>◌, Option-cases,
  Outcome-cases, inl, inr, unwrap_or,
}
use fuzzy_chat.Crosscutting.Component.{Component, ConnectionSettings}
use fuzzy_chat.Crosscutting.Endpoint.{UriText, to_https_endpoint, to_endpoint, get_public_endpoint}
use fuzzy_chat.Crosscutting.Settings.{System, component_settings, parse_u16, or_empty}
use fuzzy_chat.Crosscutting.Settings as Settings
use fuzzy_chat.Gateway.Clients.{CommandType, Informer, Lander, Router}
use fuzzy_chat.Gateway.Clients as Traits
use fuzzy_chat.Gateway.Channels.{Transport, Holding, open_channel, controller_channel}
use fuzzy_chat.Gateway.Channels.Proxy as ProxyClient
use fuzzy_chat.Gateway.Channels.Proxy.{get_proxy, proxy}
use fuzzy_chat.Gateway.Channels.Route as RouteClient
use fuzzy_chat.Gateway.Channels.Route.{get_router, router}
use fuzzy_chat.Proxy.Clients.Channels.{
  InfoClient, LandingClient, get_informer, get_lander, informer, lander, initialize_informer,
  initialize_lander,
}

-- What a call over a channel leaves of a client.
abbrev delivered : {S C A : Type 0} → Outcome String A × S → C → Outcome String A × Holding C S
delivered r c = (r.0, record { client = c; world = r.1 })

module _ {S Uri Endpoint Channel : Type 0} (t : Transport S Uri Endpoint Channel)
    (uris : UriText Uri) (system : System) (proxies : Channel → Traits.Proxy S)
    (routers : Channel → Router S) (landers : Channel → Lander S) (informers : Channel → Informer S)
    (uri : Uri) (key : List ℕ) (name : String) (w : S) where
  -- New clients.
  abbrev new_proxy : Holding (ProxyClient.ProxyClient Uri Channel) S
  new_proxy = record { client = get_proxy uri key name; world = w }

  abbrev new_router : Holding (RouteClient.RouteClient Channel) S
  new_router = record { client = get_router; world = w }

  abbrev new_lander : Holding (LandingClient Uri Channel) S
  new_lander = record { client = get_lander uri key name; world = w }

  abbrev new_informer : Holding (InfoClient Channel) S
  new_informer = record { client = get_informer; world = w }

  -- Before `initialize` nothing is called: a new proxy client answers with an error, and each
  -- method of the other new clients panics.
  pub uninitialized_calls :
      (id access_key nonce recipient : String) (command : CommandType) (content : List ℕ)
      → ((proxy t proxies).send_command id nonce command content new_proxy
          ≡ (err "Client not initialized", new_proxy))
        × ((router t uris system routers).init_conversation access_key recipient new_router
            ≡ (panic, new_router))
        × ((router t uris system routers).get_route id access_key new_router ≡ (panic, new_router))
        × ((router t uris system routers).redeem id access_key nonce new_router
            ≡ (panic, new_router))
        × ((lander t landers).send_message id access_key nonce content new_lander
            ≡ (panic, new_lander))
        × ((informer t uris system informers).get_status access_key new_informer
            ≡ (panic, new_informer))
  unfolding proxy router lander informer get_proxy get_router get_lander get_informer
      ProxyClient.send_command
  uninitialized_calls id access_key nonce recipient command content =
      (refl, refl, refl, refl, refl, refl)

module _ {S Uri Endpoint Channel : Type 0} (t : Transport S Uri Endpoint Channel)
    (proxies : Channel → Traits.Proxy S) (landers : Channel → Lander S) (uri : Uri) (key : List ℕ)
    (name : String) (w : S) where
  -- A new proxy or landing client that is initialized, its channel being opened, calls the service at
  -- the other end of that channel, after what the opening did.
  pub opened_calls :
      (c : Channel) (w' : S) (id access_key nonce : String) (command : CommandType)
      (content : List ℕ)
      → open_channel t uri key name w ≡ (ok c, w')
      → (((proxy t proxies).initialize >> (proxy t proxies).send_command id nonce command content)
            (record { client = get_proxy uri key name; world = w })
          ≡ delivered
              ((proxies c).send_command id nonce command content w')
              (record (get_proxy uri key name) { client = some c }))
        × (((lander t landers).initialize
                >> (lander t landers).send_message id access_key nonce content)
              (record { client = get_lander uri key name; world = w })
            ≡ delivered
                ((landers c).send_message id access_key nonce content w')
                (record (get_lander uri key name) { client = some c }))
  unfolding proxy lander get_proxy get_lander ProxyClient.initialize ProxyClient.send_command
      initialize_lander
  opened_calls c w' id access_key nonce command content e = (ground (arith, e), ground (arith, e))

module _ {S Uri Endpoint Channel : Type 0} (t : Transport S Uri Endpoint Channel)
    (uris : UriText Uri) (system : System) (routers : Channel → Router S)
    (informers : Channel → Informer S) (w : S) where
  -- A new route or information client that is initialized, the channel to the controller being opened,
  -- calls the service at the other end of that channel, after what the opening did.
  pub controller_calls :
      (c : Channel) (w' : S) (id access_key nonce recipient : String)
      → controller_channel t uris system w ≡ (ok c, w')
      → (((router t uris system routers).initialize
              >> (router t uris system routers).init_conversation access_key recipient)
            (record { client = get_router; world = w })
          ≡ delivered
              ((routers c).init_conversation access_key recipient w')
              (record { client = some c }))
        × (((router t uris system routers).initialize
                >> (router t uris system routers).get_route id access_key)
              (record { client = get_router; world = w })
            ≡ delivered ((routers c).get_route id access_key w') (record { client = some c }))
        × (((router t uris system routers).initialize
                >> (router t uris system routers).redeem id access_key nonce)
              (record { client = get_router; world = w })
            ≡ delivered ((routers c).redeem id access_key nonce w') (record { client = some c }))
        × (((informer t uris system informers).initialize
                >> (informer t uris system informers).get_status access_key)
              (record { client = get_informer; world = w })
            ≡ delivered ((informers c).get_status access_key w') (record { client = some c }))
  unfolding router informer get_router get_informer RouteClient.initialize initialize_informer
  controller_calls c w' id access_key nonce recipient e =
      (ground (arith, e), ground (arith, e), ground (arith, e), ground (arith, e))

-- With a working directory the settings of the component itself are read or refused.
own_settings-never_panic :
    (system : System) (dir : String)
    → system.current_dir ≡ some dir
    → ((path : String) → system.read path ≢ panic)
    → (Settings.get_connection_settings system).0 ≢ panic
unfolding Settings.get_connection_settings Settings.get_service_endpoint Settings.get_env_variable
    Settings.get_domain_name Settings.get_cert_file Settings.get_certificates_dir
own_settings-never_panic system dir g readable p = elim (Option-cases (system.var "LISTENING_IP")) [
  | inl a ↦ ground (arith, a, p)
  | inr (ip, a) ↦ elim (Option-cases (system.var "LISTENING_PORT")) [
    | inl b ↦ ground (arith, a, b, p)
    | inr (text, b) ↦ elim (Option-cases (parse_u16 text)) [
      | inl c ↦ ground (arith, a, b, c, p)
      | inr (port, c) ↦ elim (Option-cases (system.var "DOMAIN_NAME")) [
        | inl d ↦ ground (arith, a, b, c, d, p)
        | inr (name, d) ↦ read_cases a b c d
      ]
    ]
  ]
]
  where
    ca : String
    ca = system.join (unwrap_or (system.var "CERTS_DIR") dir) "ca.crt"

    read_cases :
        {ip text name : String} {port : ℕ}
        → system.var "LISTENING_IP" ≡ some ip
        → system.var "LISTENING_PORT" ≡ some text
        → parse_u16 text ≡ some port
        → system.var "DOMAIN_NAME" ≡ some name
        → ⊥
    read_cases a b c d = elim (Outcome-cases (system.read ca)) [
      | inl (bytes, f) ↦ ground (arith, a, b, c, d, g, f, p)
      | inr (inl (e, f)) ↦ ground (arith, a, b, c, d, g, f, p)
      | inr (inr f) ↦ readable ca f
    ]

named_settings :
    (system : System) (ip text name file : String) (port : ℕ)
    → system.var "CONTROLLER_IP" ≡ some ip
    → system.var "CONTROLLER_PORT" ≡ some text
    → parse_u16 text ≡ some port
    → system.var "CONTROLLER_DOMAIN_NAME" ≡ some name
    → system.var "CONTROLLER_CERT_FILE" ≡ some file
    → (Settings.get_controller_connection_settings system).0
      ≡ ok (record {
        ip = ip;
        port = port;
        domain_name = name;
        certificate = or_empty (system.read file);
      })
unfolding Settings.get_controller_connection_settings Settings.get_service_endpoint
    Settings.get_env_variable Settings.get_domain_name Settings.get_controller_cert_file
named_settings system ip text name file port a b p d f = ground (arith, a, b, p, d, f)

-- The settings that the environment gives of the controller are taken.
settings_chosen :
    (system : System) (settings : ConnectionSettings)
    → (Settings.get_controller_connection_settings system).0 ≡ ok settings
    → (Settings.get_connection_settings system).0 ≢ panic
    → (component_settings Component.controller system).0 ≡ ok settings
unfolding component_settings
settings_chosen system settings e n =
    elim (Outcome-cases (Settings.get_connection_settings system).0) [
      | inl (own, f) ↦ ground (arith, e, f)
      | inr (inl (x, f)) ↦ ground (arith, e, f)
      | inr (inr f) ↦ absurd (n f)
    ]

-- The text of an address over https.
abbrev address : {Uri : Type 0} → UriText Uri → String → ℕ → String
address uris ip port =
    Text.◌++◌ "https" (Text.◌++◌ "://" (Text.◌++◌ ip (Text.◌++◌ ":" (uris.to_string port))))

module _ {S Uri Endpoint Channel : Type 0} (t : Transport S Uri Endpoint Channel)
    (uris : UriText Uri) (system : System) where
  -- Where the environment names the controller's address, a port that is a 16-bit number, a domain
  -- name and a certificate file, there is a working directory and no reading of a file panics, the
  -- channel is connected to an endpoint: that of the URI "https://", the address, ":" and the port,
  -- configured with the certificate of that file (or an empty one where it cannot be read) and that
  -- domain name. An error of the configuration is the answer, and so is what the connection gives; an
  -- address that makes no URI panics.
  pub controller_channel_lem :
      (ip text name file dir : String) (port : ℕ) (w : S)
      → system.var "CONTROLLER_IP" ≡ some ip
      → system.var "CONTROLLER_PORT" ≡ some text
      → parse_u16 text ≡ some port
      → system.var "CONTROLLER_DOMAIN_NAME" ≡ some name
      → system.var "CONTROLLER_CERT_FILE" ≡ some file
      → system.current_dir ≡ some dir
      → ((path : String) → system.read path ≢ panic)
      → controller_channel t uris system w ≡ (elim (uris.try_from (address uris ip port)) [
        | none ↦ (panic, w)
        | some uri ↦
            elim (t.tls_config uri
              (record { ca_certificate = or_empty (system.read file); domain_name = name })) [
                | ok endpoint ↦ t.connect endpoint w
                | err e ↦ (err e, w)
                | panic ↦ (panic, w)
              ]
      ])
  unfolding controller_channel get_public_endpoint to_https_endpoint to_endpoint open_channel
  controller_channel_lem ip text name file dir port w a b p d f g readable =
      elim (Option-cases (uris.try_from (address uris ip port))) [
        | inl n ↦ ground (arith, n, settings)
        | inr (uri, n) ↦ ground (arith, n, settings)
      ]
    where
      settings :
          (component_settings Component.controller system).0
          ≡ ok (record {
            ip = ip;
            port = port;
            domain_name = name;
            certificate = or_empty (system.read file);
          })
      settings =
          settings_chosen system _ (named_settings system ip text name file port a b p d f)
            (own_settings-never_panic system dir g readable)
