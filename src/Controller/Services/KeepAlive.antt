-- ===== src/Controller/Services/KeepAlive.antt =====
-- A component that pings in time keeps its session.
use fuzzy_chat.Prelude.{
  [], ◌∷◌, ℕ, String, List, if◌then◌else◌, ◌≡◌, ◌==◌, ◌≤◌, Bool-cases, some, ◌+◌, false, inl, arith,
  Option-cases, eq_iff, ap, inr, Outcome, Status,
}
use fuzzy_chat.Prelude.Int.{ℤ, pos}
use fuzzy_chat.Prelude.Dict
use fuzzy_chat.Crosscutting.Networking.{SocketAddr}
use fuzzy_chat.Controller.Storage.Sessions
use fuzzy_chat.Controller.Storage.Sessions.Invariant.{
  WellFormed, get_session-WellFormed, kill_expired-WellFormed,
}
use fuzzy_chat.Controller.Storage.Sessions.Expiry.{sessions-kill_expired}
use fuzzy_chat.Controller.Services.Auth.{ping}
use fuzzy_chat.Controller.Services.Auth.Ping.{from}
use fuzzy_chat.Controller.State.{Controller}
use fuzzy_chat.Controller.Storage.Sessions.Shrinks.{Wrapped}
use fuzzy_chat.Controller.Models.{SessionInfo, PingResponse}
use fuzzy_chat.Controller.Storage.Expiration.{renew}
use fuzzy_chat.Controller.Services.Guards.Facts.{
  touch, get-touch, check_session-some, get_session-some,
}
use fuzzy_chat.Controller.Storage.Sessions.{SessionRepository}
use fuzzy_chat.Controller.Storage.Times.{sessions_expiration_time}
use mathlib.Core.Path.{subst}
use fuzzy_chat.Controller.Services.Access.{ping-Denied}
use fuzzy_chat.Prelude.Dict.{get-insert}

-- A ping renews its session, whether its address is right or not.
pub ping_state :
    (now : ℕ) (t : ℤ) (ip : SocketAddr) (key : String) (w : Wrapped) (s : Controller)
    → Dict.get s.session_manager.sessions key ≡ some w
    → (ping now t (from ip key) s).1 ≡ touch now key (renew now w) (touch now key w s)
unfolding ping
ping_state now t ip key w s e = ground (
  arith,
  check_session-some now key s w e,
  get_session-some now key (touch now key w s) (renew now w) (get-touch now key s w),
)

pub renewed_state :
    (now : ℕ) (key : String) (w : Wrapped) (r : SessionRepository)
    → Dict.get r.sessions key ≡ some w
    → (Sessions.get_session now key r).1
      ≡ record r { sessions = Dict.insert r.sessions key (renew now w) }
unfolding Sessions.get_session
renewed_state now key w r e = ground arith

touch-WellFormed :
    (now : ℕ) (key : String) (w : Wrapped) (s : Controller)
    → Dict.get s.session_manager.sessions key ≡ some w
    → WellFormed s.session_manager
    → WellFormed (touch now key w s).session_manager
touch-WellFormed now key w s e h =
    subst WellFormed (renewed_state now key w s.session_manager e)
      (get_session-WellFormed now key h)

-- The requests and rounds that a session lives through: pings, of any access key, and the rounds of
-- the task that removes expired sessions.
pub data Event : Type 0 where
  pings : ℕ → SocketAddr → String → Event
  sweeps : ℕ → Event

unfoldable pub step : Event → Controller → Controller
step (pings now ip key) s = (ping now (pos 0) (from ip key) s).1
step (sweeps now) s = record s { session_manager = Sessions.kill_expired now s.session_manager }

pub run : List Event → Controller → Controller
run [] s = s
run (e ∷ es) s = run es (step e s)

-- Every round comes at most the expiration time after the last ping of `key`.
abbrev pub InTime : String → ℕ → List Event → Type 0
InTime key last [] = Unit
InTime key last (pings now ip k ∷ es) = InTime key (if k == key then now else last) es
InTime key last (sweeps now ∷ es) = (now ≤ last + sessions_expiration_time) × InTime key last es

-- The session of `key` was last renewed at `last`.
pub record Alive (key : String) (last : ℕ) (value : SessionInfo) (s : Controller) : Type 0 where
  pub well : WellFormed s.session_manager
  pub session : Wrapped
  pub has_session : Dict.get s.session_manager.sessions key ≡ some session
  pub same_value : session.value ≡ value
  pub renewed : session.expires_at ≡ last + sessions_expiration_time

Alive-ping_self :
    (now : ℕ) (ip : SocketAddr) (key : String) {last : ℕ} {value : SessionInfo} {s : Controller}
    → Alive key last value s
    → Alive key now value (step (pings now ip key) s)
unfolding step
Alive-ping_self now ip key {s = s} a =
    rw (ping_state now (pos 0) ip key a.session s a.has_session) (record {
      well =
          touch-WellFormed now key (renew now a.session) (touch now key a.session s)
            (get-touch now key s a.session)
            (touch-WellFormed now key a.session s a.has_session a.well);
      session = renew now (renew now a.session);
      has_session = get-touch now key (touch now key a.session s) (renew now a.session);
      same_value = a.same_value;
      renewed = ap (λ (n : ℕ). now + n) (a.well.keyed key a.session a.has_session).1;
    })

Alive-ping_other :
    (now : ℕ) (ip : SocketAddr) (k key : String) {last : ℕ} {value : SessionInfo} {s : Controller}
    → (k == key) ≡ false
    → Alive key last value s
    → Alive key last value (step (pings now ip k) s)
unfolding step
Alive-ping_other now ip k key {s = s} ne a =
    elim (Option-cases (Dict.get s.session_manager.sessions k)) [
      | inl e ↦
          let same : (ping now (pos 0) (from ip k) s).1 ≡ s =
            ap (λ (p : Outcome Status PingResponse × Controller). p.1)
              (ping-Denied now k s e (pos 0) ip) in
          rw same a
      | inr (w, e) ↦ rw (ping_state now (pos 0) ip k w s e) (record {
        well =
            touch-WellFormed now k (renew now w) (touch now k w s) (get-touch now k s w)
              (touch-WellFormed now k w s e a.well);
        session = a.session;
        has_session = ground (
          arith,
          a.has_session,
          get-insert s.session_manager.sessions k key (renew now w),
          get-insert (touch now k w s).session_manager.sessions k key (renew now (renew now w)),
        );
        same_value = a.same_value;
        renewed = a.renewed;
      })
    ]

Alive-sweep :
    (now : ℕ) (key : String) {last : ℕ} {value : SessionInfo} {s : Controller}
    → now ≤ last + sessions_expiration_time
    → Alive key last value s
    → Alive key last value (step (sweeps now) s)
unfolding step
Alive-sweep now key {s = s} b a = record {
  well = kill_expired-WellFormed now a.well;
  session = a.session;
  has_session = ground (arith, a.has_session, a.renewed, sessions-kill_expired now a.well key);
  same_value = a.same_value;
  renewed = a.renewed;
}

-- From a state whose sessions are well formed, through any pings and rounds: while every round comes
-- within the expiration time of the last ping of an access key, the session of that key is kept, with
-- the value it holds.
pub run-Alive :
    (key : String) (last : ℕ) (value : SessionInfo) (es : List Event) (s : Controller)
    → InTime key last es
    → Alive key last value s
    → (n : ℕ) × Alive key n value (run es s)
unfolding run
run-Alive key last value [] s t a = (last, a)
run-Alive key last value (pings now ip k ∷ es) s t a = elim (Bool-cases (k == key)) [
  | inl own ↦
      run-Alive key now value es _ (rw own at t)
        (rw ((eq_iff k key).0 own) (Alive-ping_self now ip key a))
  | inr other ↦
      run-Alive key last value es _ (rw other at t) (Alive-ping_other now ip k key other a)
]
run-Alive key last value (sweeps now ∷ es) s t a =
    run-Alive key last value es _ t.1 (Alive-sweep now key t.0 a)
