-- ===== src/Controller/Runs/Sessions.antt =====
-- What each operation on the sessions, and on the members, keeps.
use fuzzy_chat.Prelude.{ℕ, String, List, [], ◌∷◌, some, ◌≡◌, sym, inl, inr, arith, Option-cases}
use mathlib.Core.Path.{subst}
use fuzzy_chat.Prelude.Dict
use fuzzy_chat.Prelude.Dict.{insert-Each}
use fuzzy_chat.Crosscutting.Component.{Component, to_u8}
use fuzzy_chat.Controller.Membership.{keep_members}
use fuzzy_chat.Controller.Models.{Member, SessionInfo}
use fuzzy_chat.Controller.Runs.Sound.{IsKnown, Honest, SessionsSound, Sound}
use fuzzy_chat.Controller.Services.Guards.Facts.{touch}
use fuzzy_chat.Controller.Services.KeepAlive.{renewed_state}
use fuzzy_chat.Controller.State.{Controller}
use fuzzy_chat.Controller.Storage.Expiration.{wrap}
use fuzzy_chat.Controller.Storage.Members
use fuzzy_chat.Controller.Storage.Members.{MemberRepository}
use fuzzy_chat.Controller.Storage.Sessions
use fuzzy_chat.Controller.Storage.Sessions.{SessionRepository}
use fuzzy_chat.Controller.Storage.Sessions.Invariant.{
  Fresh, Shrinks-WellFormed, store-index-WellFormed,
}
use fuzzy_chat.Controller.Storage.Sessions.Shrinks.{Wrapped, Shrinks, get_session-Shrinks}
use fuzzy_chat.Controller.Storage.Times.{sessions_expiration_time}

module _ {own : String} {members : MemberRepository} where
  pub Shrinks-SessionsSound :
      {r r' : SessionRepository}
      → Shrinks r r'
      → SessionsSound own members r
      → SessionsSound own members r'
  Shrinks-SessionsSound g h = record {
    well = Shrinks-WellFormed g h.well;
    honest = λ k w' e'.
        let (w, e, v) = g.sessions k w' e' in subst (Honest own members) (sym v.0) (h.honest k w e);
    lone = λ uid k e. h.lone uid k (g.controllers uid k e);
  }

  inserted-Honest :
      (now : ℕ) (i : SessionInfo) (r : SessionRepository)
      → Honest own members i
      → SessionsSound own members r
      → (k : String) (w : Wrapped)
      → Dict.get (Dict.insert r.sessions i.access_key (wrap now i sessions_expiration_time)) k
        ≡ some w
      → Honest own members w.value
  inserted-Honest now i r t h =
      insert-Each (λ k w. Honest own members w.value) r.sessions i.access_key
        (wrap now i sessions_expiration_time) t h.honest

  store-Honest :
      (now : ℕ) (c : Component) (i : SessionInfo) (r : SessionRepository)
      → Honest own members i
      → SessionsSound own members r
      → (k : String) (w : Wrapped)
      → Dict.get (Sessions.store now i (Sessions.index c i r)).sessions k ≡ some w
      → Honest own members w.value
  unfolding Sessions.store Sessions.index
  store-Honest now Component.client = inserted-Honest now
  store-Honest now Component.proxy = inserted-Honest now
  store-Honest now Component.controller = inserted-Honest now

  store_lone :
      (now : ℕ) (c : Component) (i : SessionInfo) (r : SessionRepository)
      → i.component_type ≡ to_u8 c
      → Honest own members i
      → SessionsSound own members r
      → (uid k : String)
      → Dict.get (Sessions.store now i (Sessions.index c i r)).controllers uid ≡ some k
      → uid ≡ own
  unfolding Sessions.store Sessions.index
  store_lone now Component.client i r t g h = h.lone
  store_lone now Component.proxy i r t g h = h.lone
  store_lone now Component.controller i r t g h =
      insert-Each (λ uid k. uid ≡ own) r.controllers i.uid i.access_key (g.controls t) h.lone

  pub store-SessionsSound :
      (now : ℕ) (c : Component) (i : SessionInfo) {r : SessionRepository}
      → i.component_type ≡ to_u8 c
      → Fresh i.access_key r
      → Honest own members i
      → SessionsSound own members r
      → SessionsSound own members (Sessions.store now i (Sessions.index c i r))
  store-SessionsSound now c i {r} t fresh good h = record {
    well = store-index-WellFormed now c i t fresh h.well;
    honest = store-Honest now c i r good h;
    lone = store_lone now c i r t good h;
  }

module _ {own : String} where
  pub sessions-Sound :
      {s : Controller} {r : SessionRepository}
      → Sound own s
      → SessionsSound own s.member_manager r
      → Sound own (record s { session_manager = r })
  sessions-Sound h g = record { sessions = g; routes = h.routes }

  -- A look-up of a session renews it and keeps the state sound.
  pub touch-Sound :
      (now : ℕ) (key : String) (w : Wrapped) {s : Controller}
      → Dict.get s.session_manager.sessions key ≡ some w
      → Sound own s
      → Sound own (touch now key w s)
  touch-Sound now key w {s} e h = sessions-Sound h (
      subst (SessionsSound own s.member_manager) (renewed_state now key w s.session_manager e)
        (Shrinks-SessionsSound (get_session-Shrinks now key s.session_manager) h.sessions))

-- No member is ever forgotten.
abbrev Remembers : MemberRepository → MemberRepository → Type 0
Remembers a b =
    (uid : String) (m : Member)
    → Members.get_member uid a ≡ some m
    → (n : Member) × (Members.get_member uid b ≡ some n)

set_member-Remembers : (m : Member) (a : MemberRepository) → Remembers a (Members.set_member m a)
unfolding Members.set_member Members.get_member
set_member-Remembers m a uid n e = elim (Option-cases (Dict.get (Dict.insert a m.uid m) uid)) [
  | inr (k, f) ↦ (k, f)
  | inl f ↦ ground (arith, Dict.get-insert a m.uid uid m)
]

keep_members-Remembers : (ms : List Member) (a : MemberRepository) → Remembers a (keep_members ms a)
unfolding keep_members
keep_members-Remembers [] a uid n e = (n, e)
keep_members-Remembers (m ∷ rest) a uid n e =
    let (k, f) = set_member-Remembers m a uid n e in
    keep_members-Remembers rest (Members.set_member m a) uid k f

module _ {own : String} (a b : MemberRepository) (more : Remembers a b) where
  IsKnown-Remembers : (uid : String) → IsKnown own a uid → IsKnown own b uid
  IsKnown-Remembers uid (inl e) = inl e
  IsKnown-Remembers uid (inr (m, e)) = inr (more uid m e)

  Honest-Remembers : {i : SessionInfo} → Honest own a i → Honest own b i
  Honest-Remembers {i} t = record {
    port = t.port;
    component = t.component;
    typed = t.typed;
    known = IsKnown-Remembers i.uid t.known;
    controls = t.controls;
  }

-- So more members keep the state sound.
pub keep_members-Sound :
    (own : String) (ms : List Member) (s : Controller)
    → Sound own s
    → Sound own (record s { member_manager = keep_members ms s.member_manager })
keep_members-Sound own ms s h =
    let old = s.member_manager in
    let all = keep_members ms old in
    let more = keep_members-Remembers ms old in
    record {
      sessions = record {
        well = h.sessions.well;
        lone = h.sessions.lone;
        honest = λ k w e. Honest-Remembers old all more (h.sessions.honest k w e);
      };
      routes = record {
        talks = λ id w e.
            let t = h.routes.talks id w e in
            record {
              named = t.named;
              random = t.random;
              sent = IsKnown-Remembers old all more w.value.sender t.sent;
            };
        hops = h.routes.hops;
      };
    }
