-- ===== src/Crosscutting/Settings.antt =====
-- crosscutting/src/settings (environment.rs, service.rs, auth.rs) and the loading of a descriptor in
-- crosscutting/src/lib.rs. The environment, the files and the working directory are the state, which
-- nothing here changes.
pub mod Loading
pub mod Logger
use Prim.Native.Char.{Char, code}
use Prim.Native.String as Text
use fuzzy_chat.Prelude.{
  ℕ, ◌+◌, ◌*◌, ◌-◌, ◌^◌, String, Bool, true, false, ◌&&◌, Option, none, some, List, [], Exec, ok,
  err, panic, pure, lift, ok_or, unwrap, unwrap_or, map_err, if_let, leb, ltb, eqb, is_ok, ◌>>=◌,
  ◌>>◌, if◌then◌else◌, Outcome, here,
}
use fuzzy_chat.Crosscutting.Component.{
  Component, ComponentDescriptor, ConnectionSettings, Credentials,
}

-- What `std::env` and `std::fs` give; a file that cannot be read gives the error's text. `join` is
-- `PathBuf::join`.
pub record System : Type 0 where
  pub var : String → Option String
  pub read : String → Outcome String (List ℕ)
  pub current_dir : Option String
  pub join : String → String → String

abbrev pub Setting : Type 0 → Type 0
Setting A = Exec System String A

unfoldable pub get_env_variable : String → Setting String
get_env_variable name system = (
  if_let (system.var name) ok (err (Text.◌++◌ "Environment variable " (Text.◌++◌ name " not set"))),
  system,
)

-- The working directory is asked for in any case.
abbrev dir_of : String → Setting String
dir_of name system =
    (if_let system.current_dir (λ dir. ok (unwrap_or (system.var name) dir)) panic, system)

unfoldable pub get_certificates_dir : Setting String
get_certificates_dir = dir_of "CERTS_DIR"

unfoldable pub get_logs_dir : Setting String
get_logs_dir = dir_of "LOGS_DIR"

-- `hostname::get`, with its text, may fail.
abbrev pub get_hostname : Option String → String
get_hostname name = unwrap_or name "localhost"

-- crosscutting/src/settings/logging.rs
unfoldable pub get_default_log_file_name : Option String → String → String
get_default_log_file_name name component_type =
    Text.◌++◌ (get_hostname name) (Text.◌++◌ "-" (Text.◌++◌ component_type ".log"))

-- `Path::ends_with`, of `std`, is an argument.
unfoldable pub get_logs_path : (String → String → Bool) → Setting String
unfolding get_logs_dir
get_logs_path ends_with = do
  base_path ← get_logs_dir
  λ system.
      (ok (if ends_with base_path "logs" then base_path else system.join base_path "logs"), system)

abbrev pub digit : Char → Option ℕ
digit c = if leb b'0' (code c) && leb (code c) b'9' then some (code c - b'0') else none

-- The digits that are left, on a number so far, as long as it is below a bound.
unfoldable pub parse_digits : ℕ → ℕ → String → Option ℕ
parse_digits bound n Text.[] = some n
parse_digits bound n (Text.◌∷◌ c rest) = elim (digit c) [
  | none ↦ none
  | some d ↦ elim (ltb (10 * n + d) bound) [
    | true ↦ parse_digits bound (10 * n + d) rest
    | false ↦ none
  ]
]

-- `parse` to an unsigned number, of `std`: digits, after a sign that may be a plus.
unfoldable pub parse_unsigned : ℕ → String → Option ℕ
unfolding parse_digits
parse_unsigned bound Text.[] = none
parse_unsigned bound (Text.◌∷◌ c Text.[]) = parse_digits bound 0 (Text.◌∷◌ c Text.[])
parse_unsigned bound (Text.◌∷◌ c (Text.◌∷◌ d rest)) =
    if eqb (code c) b'+'
    then parse_digits bound 0 (Text.◌∷◌ d rest)
    else parse_digits bound 0 (Text.◌∷◌ c (Text.◌∷◌ d rest))

-- `parse::<u16>`
unfoldable pub parse_u16 : String → Option ℕ
unfolding parse_unsigned
parse_u16 = parse_unsigned (2 ^ 16)

-- `parse::<u8>`
unfoldable pub parse_u8 : String → Option ℕ
unfolding parse_unsigned
parse_u8 = parse_unsigned (2 ^ 8)

unfoldable pub get_service_endpoint : String → String → Setting (String × ℕ)
unfolding get_env_variable parse_u16
get_service_endpoint ip_env_var port_env_var = do
  ip ← map_err (λ _. "IP not set") (get_env_variable ip_env_var)
  text ← map_err (λ _. "port not set") (get_env_variable port_env_var)
  port ← ok_or "Invalid port number" (parse_u16 text)
  pure (ip, port)

unfoldable pub get_domain_name : String → Setting String
unfolding get_env_variable
get_domain_name domain_env_var =
    map_err (λ _. "Domain name not set") (get_env_variable domain_env_var)

-- The certificate and the key of an `Identity`.
unfoldable pub load_tls_identity : String → String → Setting (List ℕ × List ℕ)
unfolding get_certificates_dir
load_tls_identity cert_file key_file = do
  path ← get_certificates_dir
  cert ← λ system. (system.read (system.join path cert_file), system)
  key ← λ system. (system.read (system.join path key_file), system)
  pure (cert, key)

abbrev pub or_empty : Outcome String (List ℕ) → List ℕ
or_empty (ok bytes) = bytes
or_empty _ = []

unfoldable pub get_controller_cert_file : Setting (List ℕ)
unfolding get_env_variable
get_controller_cert_file = do
  path ← get_env_variable "CONTROLLER_CERT_FILE"
  λ system. (ok (or_empty (system.read path)), system)

unfoldable pub get_cert_file : Setting (List ℕ)
unfolding get_certificates_dir
get_cert_file = do
  dir ← get_certificates_dir
  λ system. (system.read (system.join dir "ca.crt"), system)

unfoldable pub get_controller_connection_settings : Setting ConnectionSettings
unfolding get_service_endpoint get_domain_name get_controller_cert_file
get_controller_connection_settings = do
  endpoint ← get_service_endpoint "CONTROLLER_IP" "CONTROLLER_PORT"
  domain_name ← get_domain_name "CONTROLLER_DOMAIN_NAME"
  certificate ← get_controller_cert_file
  pure (record {
    ip = endpoint.0;
    port = endpoint.1;
    domain_name = domain_name;
    certificate = certificate;
  })

unfoldable pub get_connection_settings : Setting ConnectionSettings
unfolding get_service_endpoint get_domain_name get_cert_file
get_connection_settings = do
  endpoint ← get_service_endpoint "LISTENING_IP" "LISTENING_PORT"
  domain_name ← get_domain_name "DOMAIN_NAME"
  certificate ← get_cert_file
  pure (record {
    ip = endpoint.0;
    port = endpoint.1;
    domain_name = domain_name;
    certificate = certificate;
  })

-- `Result::or`, whose second argument is made in any case.
abbrev pub or_else : {A : Type 0} → Outcome String A → Outcome String A → Outcome String A
or_else panic r = panic
or_else (ok a) panic = panic
or_else (ok a) _ = ok a
or_else (err e) r = r

-- `Component::get_connection_settings`
unfoldable pub component_settings : Component → Setting ConnectionSettings
unfolding get_controller_connection_settings get_connection_settings
component_settings Component.controller system = (
  or_else (get_controller_connection_settings system).0 (get_connection_settings system).0,
  system,
)
component_settings _ system = get_connection_settings system

unfoldable pub get_credentials : Setting Credentials
unfolding get_env_variable
get_credentials = do
  uid ← map_err (λ _. "UID not set") (get_env_variable "UID")
  pwd ← map_err (λ _. "PWD not set") (get_env_variable "PWD")
  pure (record { uid = uid; pwd = pwd })

abbrev pub descriptor : Component → Credentials → ConnectionSettings → ComponentDescriptor
descriptor Component.controller c s = ComponentDescriptor.controller c s "1.0.0"
descriptor Component.proxy c s = ComponentDescriptor.proxy c s
descriptor Component.client c s = ComponentDescriptor.client c s

-- `ComponentDescriptor::load`
unfoldable pub load : Component → Setting ComponentDescriptor
unfolding component_settings get_credentials
load component_type = do
  connection_settings ← component_settings component_type
  credentials ← get_credentials
  pure (descriptor component_type credentials connection_settings)
