-- ===== src/Controller/Runs/Sound.antt =====
-- What holds of the state of a controller at all times.
use fuzzy_chat.Prelude.{String, some, ◌≡◌, ◌⊎◌, ◌<◌, ◌^◌}
use fuzzy_chat.Prelude.Dict
use fuzzy_chat.Prelude.Dict.{get-empty}
use fuzzy_chat.Crosscutting.Component.{Component, to_u8}
use fuzzy_chat.Controller.Models.{Conversation, Member, Route, SessionInfo}
use fuzzy_chat.Controller.Runs.{blank}
use fuzzy_chat.Controller.State.{Controller}
use fuzzy_chat.Controller.Storage.Expiration.{ExpirationWrapper}
use fuzzy_chat.Controller.Storage.Members
use fuzzy_chat.Controller.Storage.Members.{MemberRepository}
use fuzzy_chat.Controller.Storage.Routes.{RouteRepository}
use fuzzy_chat.Controller.Storage.Sessions.{SessionRepository}
use fuzzy_chat.Controller.Storage.Sessions.Invariant.{WellFormed, new-WellFormed}
use fuzzy_chat.Controller.Storage.Sessions.Shrinks.{Wrapped}

-- The uid of the controller itself, or of a member.
abbrev pub IsKnown : String → MemberRepository → String → Type 0
IsKnown own members uid = (uid ≡ own) ⊎ ((m : Member) × (Members.get_member uid members ≡ some m))

-- A session fits the types of its fields, and is that of a known uid; only the controller's own is
-- one of a controller.
pub record Honest (own : String) (members : MemberRepository) (i : SessionInfo) : Type 0 where
  pub port : i.on_port_number < 2 ^ 16
  pub component : Component
  pub typed : i.component_type ≡ to_u8 component
  pub known : IsKnown own members i.uid
  pub controls : i.component_type ≡ to_u8 Component.controller → i.uid ≡ own

-- No other uid than the controller's own is in the index of controllers.
pub record SessionsSound (own : String) (members : MemberRepository) (r : SessionRepository)
    : Type 0 where
  pub well : WellFormed r
  pub honest :
      (k : String) (w : Wrapped) → Dict.get r.sessions k ≡ some w → Honest own members w.value
  pub lone : (uid k : String) → Dict.get r.controllers uid ≡ some k → uid ≡ own

-- A conversation stands under its id, has the one strategy that there is and a known sender.
pub record Talk (own : String) (members : MemberRepository) (id : String) (c : Conversation)
    : Type 0 where
  pub named : c.id ≡ id
  pub random : c.routing_id ≡ 1
  pub sent : IsKnown own members c.sender

-- A route stands under its nonce, and its port is one.
abbrev pub Hop : String → Route → Type 0
Hop nonce r = (r.nonce ≡ nonce) × (r.on_port_number < 2 ^ 16)

pub record RoutesSound (own : String) (members : MemberRepository) (r : RouteRepository)
    : Type 0 where
  pub talks :
      (id : String) (w : ExpirationWrapper Conversation)
      → Dict.get r.conversations id ≡ some w
      → Talk own members id w.value
  pub hops :
      (nonce : String) (w : ExpirationWrapper Route)
      → Dict.get r.routes nonce ≡ some w
      → Hop nonce w.value

pub record Sound (own : String) (s : Controller) : Type 0 where
  pub sessions : SessionsSound own s.member_manager s.session_manager
  pub routes : RoutesSound own s.member_manager s.route_manager

pub blank-Sound : (own : String) → Sound own blank
blank-Sound own = record {
  sessions = record {
    well = new-WellFormed;
    honest = λ k w e. cc (get-empty {V = Wrapped} k);
    lone = λ uid k e. cc (get-empty {V = String} uid);
  };
  routes = record {
    talks = λ id w e. cc (get-empty {V = ExpirationWrapper Conversation} id);
    hops = λ nonce w e. cc (get-empty {V = ExpirationWrapper Route} nonce);
  };
}
