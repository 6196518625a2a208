-- ===== src/Crosscutting/Settings/Loading.antt =====
-- What the loading of settings gives.
use Prim.Native.Char.{code}
use Prim.Native.String as Text
use fuzzy_chat.Prelude.{
  ℕ, ◌+◌, ◌*◌, ◌^◌, ◌<◌, String, some, ◌≡◌, arith, eqb, ok, ltb, Bool-cases, Option-cases,
  Outcome-cases, pure, ◌>>=◌, List, inl, inr,
}
use fuzzy_chat.Crosscutting.Component.{
  Component, ComponentDescriptor, ConnectionSettings, Credentials, from_descriptor,
}
use fuzzy_chat.Crosscutting.Component as Described
use fuzzy_chat.Crosscutting.Settings.{
  System, Setting, digit, parse_digits, parse_unsigned, parse_u16, get_service_endpoint,
  get_env_variable, get_domain_name, get_controller_cert_file, get_cert_file,
  get_controller_connection_settings, get_connection_settings, component_settings, get_credentials,
  load,
}

parse_digits_bounds :
    (bound n m : ℕ) (s : String) → n < bound → parse_digits bound n s ≡ some m → m < bound
unfolding parse_digits
parse_digits_bounds bound n m Text.[] b e = ground (arith, b, e)
parse_digits_bounds bound n m (Text.◌∷◌ c rest) b e = elim (Option-cases (digit c)) [
  | inl p ↦ ground (arith, e, p)
  | inr (d, p) ↦ elim (Bool-cases (ltb (10 * n + d) bound)) [
    | inl q ↦
        parse_digits_bounds bound (10 * n + d) m rest (ground arith) (rw (p, q, parse_digits) at e)
    | inr q ↦ ground (arith, e, p, q)
  ]
]

-- A text that is parsed as a 16-bit number gives one.
pub parse_u16_bounds : (m : ℕ) (s : String) → parse_u16 s ≡ some m → m < 2 ^ 16
unfolding parse_u16 parse_unsigned
parse_u16_bounds m Text.[] e = cc
parse_u16_bounds m (Text.◌∷◌ c Text.[]) e =
    parse_digits_bounds (2 ^ 16) 0 m (Text.◌∷◌ c Text.[]) (omega arith) e
parse_u16_bounds m (Text.◌∷◌ c (Text.◌∷◌ d rest)) e = elim (Bool-cases (eqb (code c) b'+')) [
  | inl plus ↦ parse_digits_bounds (2 ^ 16) 0 m (Text.◌∷◌ d rest) (omega arith) (rw plus at e)
  | inr other ↦
      parse_digits_bounds (2 ^ 16) 0 m (Text.◌∷◌ c (Text.◌∷◌ d rest)) (omega arith) (rw other at e)
]

endpoint_bounds :
    (ip_env_var port_env_var : String) (system : System) (p : String × ℕ)
    → (get_service_endpoint ip_env_var port_env_var system).0 ≡ ok p
    → p.1 < 2 ^ 16
unfolding get_service_endpoint get_env_variable
endpoint_bounds i j system p e = elim (Option-cases (system.var i)) [
  | inl f ↦ ground (arith, e, f)
  | inr (ip, f) ↦ elim (Option-cases (system.var j)) [
    | inl g ↦ ground (arith, e, f, g)
    | inr (text, g) ↦ elim (Option-cases (parse_u16 text)) [
      | inl h ↦ ground (arith, e, f, g, h)
      | inr (m, h) ↦ ground (arith, e, f, g, h, parse_u16_bounds m text h)
    ]
  ]
]

-- The settings that an endpoint, a domain name and a certificate make.
abbrev assembled :
    Setting (String × ℕ) → Setting String → Setting (List ℕ) → Setting ConnectionSettings
assembled get_endpoint get_domain get_cert = do
  endpoint ← get_endpoint
  domain_name ← get_domain
  certificate ← get_cert
  pure (record {
    ip = endpoint.0;
    port = endpoint.1;
    domain_name = domain_name;
    certificate = certificate;
  })

assembled_bounds :
    (m : Setting (String × ℕ)) (d : Setting String) (c : Setting (List ℕ)) (system : System)
    (s : ConnectionSettings)
    → ((p : String × ℕ) → (m system).0 ≡ ok p → p.1 < 2 ^ 16)
    → (assembled m d c system).0 ≡ ok s
    → s.port < 2 ^ 16
assembled_bounds m d c system s bounds e = elim (Outcome-cases (m system).0) [
  | inr (inr p) ↦ ground (arith, e, p)
  | inr (inl (_, p)) ↦ ground (arith, e, p)
  | inl (endpoint, p) ↦ elim (Outcome-cases (d (m system).1).0) [
    | inr (inr q) ↦ ground (arith, e, p, q)
    | inr (inl (_, q)) ↦ ground (arith, e, p, q)
    | inl (domain, q) ↦ elim (Outcome-cases (c (d (m system).1).1).0) [
      | inr (inr r) ↦ ground (arith, e, p, q, r)
      | inr (inl (_, r)) ↦ ground (arith, e, p, q, r)
      | inl (certificate, r) ↦ ground (arith, e, p, q, r, bounds endpoint p)
    ]
  ]
]

controller_bounds :
    (system : System) (s : ConnectionSettings)
    → (get_controller_connection_settings system).0 ≡ ok s
    → s.port < 2 ^ 16
unfolding get_controller_connection_settings
controller_bounds system s e =
    assembled_bounds (get_service_endpoint "CONTROLLER_IP" "CONTROLLER_PORT")
      (get_domain_name "CONTROLLER_DOMAIN_NAME") get_controller_cert_file system s
      (endpoint_bounds "CONTROLLER_IP" "CONTROLLER_PORT" system) e

listening_bounds :
    (system : System) (s : ConnectionSettings)
    → (get_connection_settings system).0 ≡ ok s
    → s.port < 2 ^ 16
unfolding get_connection_settings
listening_bounds system s e =
    assembled_bounds (get_service_endpoint "LISTENING_IP" "LISTENING_PORT")
      (get_domain_name "DOMAIN_NAME") get_cert_file system s
      (endpoint_bounds "LISTENING_IP" "LISTENING_PORT" system) e

component_bounds :
    (c : Component) (system : System) (s : ConnectionSettings)
    → (component_settings c system).0 ≡ ok s
    → s.port < 2 ^ 16
unfolding component_settings
component_bounds Component.proxy system s e = listening_bounds system s e
component_bounds Component.client system s e = listening_bounds system s e
component_bounds Component.controller system s e =
    elim (Outcome-cases (get_controller_connection_settings system).0) [
      | inr (inr p) ↦ ground (arith, e, p)
      | inr (inl (_, p)) ↦ listening_bounds system s (rw p at e)
      | inl (own, p) ↦ elim (Outcome-cases (get_connection_settings system).0) [
        | inr (inr q) ↦ ground (arith, e, p, q)
        | inr (inl (_, q)) ↦ ground (arith, e, p, q, controller_bounds system own p)
        | inl (other, q) ↦ ground (arith, e, p, q, controller_bounds system own p)
      ]
    ]

-- A descriptor that is loaded is one of the component type that was asked for, and its port is a
-- 16-bit number.
pub load_lem :
    (c : Component) (system : System) (d : ComponentDescriptor)
    → (load c system).0 ≡ ok d
    → (from_descriptor d ≡ c) × ((Described.get_connection_settings d).port < 2 ^ 16)
unfolding load from_descriptor Described.get_connection_settings
load_lem c system d e = elim (Outcome-cases (component_settings c system).0) [
  | inr (inr p) ↦ ground (arith, e, p)
  | inr (inl (_, p)) ↦ ground (arith, e, p)
  | inl (s, p) ↦ elim (Outcome-cases (get_credentials (component_settings c system).1).0) [
    | inr (inr q) ↦ ground (arith, e, p, q)
    | inr (inl (_, q)) ↦ ground (arith, e, p, q)
    | inl (credentials, q) ↦ ground (arith, e, p, q, component_bounds c system s p)
  ]
]
