-- ===== src/Controller/Services/Auth/Login.antt =====
-- What `login` of auth_service.rs does on each branch.
use fuzzy_chat.Prelude.{
  ℕ, ◌+◌, ◌%◌, ◌^◌, String, true, false, ◌≡◌, ◌≢◌, refl, some, arith, ok, ◌⊎◌, inl, inr,
  Option-cases, Bool-cases, ◌==◌, eq_iff, Outcome, Status, Outcome-cases, is_ok,
}
use fuzzy_chat.Prelude.Dict
use fuzzy_chat.Prelude.Dict.{get-insert_self}
use fuzzy_chat.Crosscutting.Component.{Component, from_i32, to_u8}
use fuzzy_chat.Crosscutting.Networking.{SocketAddr}
use fuzzy_chat.Controller.Models.{LoginRequest, LoginResponse, Member}
use fuzzy_chat.Controller.State.{Controller}
use fuzzy_chat.Controller.Storage.Members
use fuzzy_chat.Controller.Storage.Sessions
use fuzzy_chat.Controller.Storage.Sessions.Lookup.{set_session_lem}
use fuzzy_chat.Controller.Session
use fuzzy_chat.Controller.Session.{session_info}
use fuzzy_chat.Controller.Services.Auth.{
  Request, login, validate_credentials, is_controller, login_settings,
}

-- Who may log in, and as what.
pub record MayLogin (r : LoginRequest) (c : Component) (s : Controller) : Type 0 where
  pub named : r.uid ≢ ""
  pub known : from_i32 {E = Status} r.component_type ≡ ok c
  pub no_controller : is_controller c ≡ false
  pub member : Member
  pub found : Members.get_member r.uid s.member_manager ≡ some member
  pub password : member.pwd ≡ r.pwd

-- The state after a login.
abbrev pub logged_in : ℕ → String → LoginRequest → Component → SocketAddr → Controller → Controller
logged_in now uuid r c ip s =
    let i = session_info uuid r.uid c ip (login_settings r) in
    record s { session_manager = Sessions.store now i (Sessions.index c i s.session_manager) }

pub set_session_info :
    (now : ℕ) (uuid : String) (c : Component) (ip : SocketAddr) (r : LoginRequest) (s : Controller)
    → Session.set_session now uuid r.uid c ip (login_settings r) s
      ≡ (ok uuid, logged_in now uuid r c ip s)
unfolding Session.set_session
set_session_info now uuid c ip r s = ground (
  arith,
  set_session_lem {E = Status} now c (session_info uuid r.uid c ip (login_settings r))
      s.session_manager refl,
)

pub credentials_cases :
    (r : LoginRequest) (s : Controller)
    → (((m : Member) × (Members.get_member r.uid s.member_manager ≡ some m) × (m.pwd ≡ r.pwd))
        × (validate_credentials r.uid r.pwd s ≡ (ok true, s)))
      ⊎ (validate_credentials r.uid r.pwd s ≡ (ok false, s))
unfolding validate_credentials
credentials_cases r s = elim (Option-cases (Members.get_member r.uid s.member_manager)) [
  | inl e ↦ inr (ground arith)
  | inr (m, e) ↦ elim (Bool-cases (m.pwd == r.pwd)) [
    | inl same ↦ inl ((m, e, (eq_iff m.pwd r.pwd).0 same), ground arith)
    | inr other ↦ inr (ground arith)
  ]
]

-- A login from a known address succeeds with the new access key when its uid is not empty and that of
-- a member with the given password, and its component type is a known one but the controller's; it
-- stores and indexes a session that holds what the request says, its port reduced to 16 bits.
pub login_accepts :
    (now : ℕ) (uuid : String) (ip : SocketAddr) (r : LoginRequest) (c : Component) (s : Controller)
    → MayLogin r c s
    → login now uuid (record { remote_addr = some ip; inner = r }) s ≡ (
      ok (record { access_key = uuid; message = "Login successful" }),
      logged_in now uuid r c ip s,
    )
unfolding login validate_credentials
login_accepts now uuid ip r c s h = ground (
  arith,
  h.found,
  h.known,
  h.password,
  eq_iff r.uid "",
  eq_iff h.member.pwd r.pwd,
  set_session_info now uuid c ip r s,
)

-- A login from a known address, when its uid is not empty and that of a member with the given
-- password, and its component type is a known one but the controller's, is answered with the new
-- access key. Then the sessions have, under that key, what the request says, with the address and a
-- port reduced to 16 bits, for ten seconds; and the uid leads to the key in the index of its component
-- type, of clients or proxies.
pub login_stores :
    (now : ℕ) (uuid : String) (ip : SocketAddr) (r : LoginRequest) (c : Component) (s : Controller)
    → MayLogin r c s
    → let q = login now uuid (record { remote_addr = some ip; inner = r }) s in
      (q.0 ≡ ok (record { access_key = uuid; message = "Login successful" }))
      × (Dict.get q.1.session_manager.sessions uuid
          ≡ some (record {
            value = record {
              access_key = uuid;
              uid = r.uid;
              client_ip = ip;
              on_port_number = r.on_port % 2 ^ 16;
              on_ip_address = r.on_ip;
              component_type = to_u8 c;
              public_key = r.public_key;
              domain_name = r.domain_name;
            };
            expires_at = now + 10000;
            expiration_time = 10000;
          }))
      × (c ≡ Component.client → Dict.get q.1.session_manager.clients r.uid ≡ some uuid)
      × (c ≡ Component.proxy → Dict.get q.1.session_manager.proxies r.uid ≡ some uuid)
unfolding Sessions.store Sessions.index
login_stores now uuid ip r c s h = rw (login_accepts now uuid ip r c s h) (
  refl,
  get-insert_self
      (Sessions.index c (session_info uuid r.uid c ip (login_settings r))
        s.session_manager).sessions
      uuid _,
  λ e. rw e (get-insert_self s.session_manager.clients r.uid uuid),
  λ e. rw e (get-insert_self s.session_manager.proxies r.uid uuid),
)

-- A refusal, or a panic, that changes nothing.
abbrev pub Refused : Outcome Status LoginResponse × Controller → Controller → Type 0
Refused result s = (is_ok result.0 ≡ false) × (result.1 ≡ s)

-- A login either gives no access key and changes nothing, or its caller's address is known, its uid is
-- not empty and that of a member with the given password, its component type is a known one but the
-- controller's, and it succeeds with the new access key and stores the session.
pub login_cases :
    (now : ℕ) (uuid : String) (request : Request LoginRequest) (s : Controller)
    → Refused (login now uuid request s) s
      ⊎ ((ip : SocketAddr) × (c : Component) × (request.remote_addr ≡ some ip)
          × MayLogin request.inner c s
          × (login now uuid request s ≡ (
            ok (record { access_key = uuid; message = "Login successful" }),
            logged_in now uuid request.inner c ip s,
          )))
unfolding login
login_cases now uuid request s = elim (Option-cases request.remote_addr) [
  | inl e ↦ inl (ground arith)
  | inr (ip, e) ↦ elim (Bool-cases (request.inner.uid == "")) [
    | inl empty ↦ inl (ground arith)
    | inr named ↦ elim (Outcome-cases (from_i32 {E = Status} request.inner.component_type)) [
      | inr bad ↦ inl (ground arith)
      | inl (c, known) ↦ elim (Bool-cases (is_controller c)) [
        | inl refused ↦ inl (ground arith)
        | inr allowed ↦ elim (credentials_cases request.inner s) [
          | inr wrong ↦ inl (ground arith)
          | inl ((m, found, same), v) ↦ inr (
            ip,
            c,
            e,
            record {
              named = ground (arith, eq_iff request.inner.uid "");
              known = known;
              no_controller = allowed;
              member = m;
              found = found;
              password = same;
            },
            ground (arith, set_session_info now uuid c ip request.inner s),
          )
        ]
      ]
    ]
  ]
]
