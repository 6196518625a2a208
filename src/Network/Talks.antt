-- ===== src/Network/Talks.antt =====
-- A conversation as the controller goes through it: each hop adds a route, each redemption removes
-- one, and the sessions stay the same but for their times.
use fuzzy_chat.Prelude.{
  ℕ, ◌+◌, String, Bool, true, false, ◌≡◌, ◌≢◌, refl, sym, ◌∙◌, ap, none, some, ok, arith, List, [],
  ◌∷◌, ◌++◌, length, eq_iff,
}
use fuzzy_chat.Prelude.Dict
use fuzzy_chat.Prelude.Dict.{get-insert, get-insert_self, get-remove, get-remove_self}
use fuzzy_chat.Controller.Models.{SessionInfo, Conversation, Route, to_connection_settings}
use fuzzy_chat.Controller.State.{Controller}
use fuzzy_chat.Controller.Storage.Expiration.{ExpirationWrapper, wrap}
use fuzzy_chat.Controller.Storage.Times.{routes_expiration_time}
use fuzzy_chat.Controller.Storage.Sessions.{SessionRepository, get_client, get_proxies}
use fuzzy_chat.Controller.Storage.Sessions.Lookup.{IsOtherProxy}
use fuzzy_chat.Controller.Storage.Sessions.Shrinks.{Wrapped}
use fuzzy_chat.Controller.Storage.Routes.{RouteRepository, set_route, push_route, remove_route}
use fuzzy_chat.Controller.Routing.{route_to}
use fuzzy_chat.Controller.Routing.Strategy.{Choose}
use fuzzy_chat.Controller.Routing.Strategy.Choice.{IsChoice}
use fuzzy_chat.Controller.Services.Guards.Facts.{touch}
use fuzzy_chat.Controller.Services.Routes.{redeem, route}
use fuzzy_chat.Controller.Services.Routes.Hops.{Ready, answer, hopped, route_hop, route_final}
use fuzzy_chat.Controller.Services.Routes.Redeeming.{redeem_hop, redeem_end, spent, ended}
use fuzzy_chat.Network.Sessions.{
  Same, Same-trans, Same-sym, Same-touch, Same-get, get_proxies-Same, get_client-Same,
}

-- The conversation has `count` routes by now.
pub record Talking (r : SessionRepository) (id sender recipient : String) (count : ℕ)
    (s : Controller) : Type 0 where
  pub same : Same r s.session_manager
  pub talk : ExpirationWrapper Conversation
  pub has_talk : Dict.get s.route_manager.conversations id ≡ some talk
  pub by_sender : talk.value.sender ≡ sender
  pub to_recipient : talk.value.recipient ≡ recipient
  pub random : talk.value.routing_id ≡ 1
  pub counted : length talk.value.routes ≡ count

-- A nonce leads to a route.
abbrev pub HasRoute : String → Bool → Controller → Type 0
HasRoute nonce last s =
    (w : ExpirationWrapper Route) × (Dict.get s.route_manager.routes nonce ≡ some w)
    × (w.value.end_route ≡ last)

abbrev pub HasSession : String → SessionRepository → Type 0
HasSession key r = (w : Wrapped) × (Dict.get r.sessions key ≡ some w)

-- Nonces that are new stay new, but for one that has been stored.
abbrev pub Unused : String → Controller → Type 0
Unused nonce s = Dict.get s.route_manager.routes nonce ≡ none

set_route_state :
    (now : ℕ) (id : String) (new_route : Route) (w : ExpirationWrapper Conversation)
    (r : RouteRepository)
    → Dict.get r.routes new_route.nonce ≡ none
    → Dict.get r.conversations id ≡ some w
    → (set_route now id new_route r).1 ≡ record {
      routes = Dict.insert r.routes new_route.nonce (wrap now new_route routes_expiration_time);
      conversations = Dict.insert r.conversations id (push_route new_route w);
    }
unfolding set_route
set_route_state now id new_route w r e f = ground (arith, e, f)

length-snoc {ℓ} : {A : Type ℓ} (l : List A) (a : A) → length (l ++ a ∷ []) ≡ length l + 1
length-snoc [] a = omega arith
length-snoc (x ∷ l) a = omega (arith, length-snoc l a)

IsOtherProxy-Same :
    {r q : SessionRepository} (key : String) (p : SessionInfo)
    → Same r q
    → IsOtherProxy key q p
    → IsOtherProxy key r p
IsOtherProxy-Same {r} {q} key p h (uid, k, w, e, n, f, v) =
    let (w₀, g, same) = Same-get k w (Same-sym h) f in
    (uid, k, w₀, rw h.proxies at e, n, g, same ∙ v)

module _ (r : SessionRepository) (id sender recipient : String) where
  module _ (now : ℕ) (key nonce : String) (count : ℕ) (s : Controller)
      (talking : Talking r id sender recipient count s) (live : HasSession key r) where
    -- The redemption of an intermediate hop.
    pub redeemed :
        HasRoute nonce false s
        → (q : Controller) × (redeem now key id nonce s ≡ (ok (record { source_info = none }), q))
          × Talking r id sender recipient count q
          × ((n : String) → Unused n s → Unused n q)
    unfolding remove_route
    redeemed (v, e, f) =
        let (w, g, _) = Same-get key live.0 talking.same live.1 in
        (
          spent nonce (touch now key w s),
          redeem_hop now key id nonce s w g talking.talk talking.has_talk v e f,
          record {
            same = Same-trans talking.same (Same-touch now key w s g);
            talk = talking.talk;
            has_talk = talking.has_talk;
            by_sender = talking.by_sender;
            to_recipient = talking.to_recipient;
            random = talking.random;
            counted = talking.counted;
          },
          λ n h. ground (arith, h, get-remove s.route_manager.routes nonce n),
        )

    -- The redemption of the last hop.
    pub redeemed_end :
        HasRoute nonce true s
        → (q : Controller) × (redeem now key id nonce s
            ≡ (ok (record { source_info = some sender }), q))
          × Same r q.session_manager
    redeemed_end (v, e, f) =
        let (w, g, _) = Same-get key live.0 talking.same live.1 in
        (
          ended id (spent nonce (touch now key w s)),
          rw (← talking.by_sender)
              (redeem_end now key id nonce s w g talking.talk talking.has_talk v e f),
          Same-trans talking.same (Same-touch now key w s g),
        )

  module _ (now : ℕ) (uuid : String) (choose : Choose) (key : String) (count : ℕ) (s : Controller)
      (talking : Talking r id sender recipient count s) (w : Wrapped)
      (has_session : Dict.get s.session_manager.sessions key ≡ some w) (fresh : Unused uuid s) where
    ready : Ready key id s
    ready = record {
      session = w;
      has_session = has_session;
      conversation = talking.talk;
      has_conversation = talking.has_talk;
      random = talking.random;
    }

    -- The state after a hop, wherever it leads.
    abbrev after : SessionInfo → Bool → Controller
    after q last = hopped now uuid choose key id s ready fresh q last

    after_state :
        (q : SessionInfo) (last : Bool)
        → (after q last).route_manager ≡ record {
          routes =
              Dict.insert s.route_manager.routes uuid
                (wrap now (route_to (to_connection_settings q) uuid last) routes_expiration_time);
          conversations =
              Dict.insert s.route_manager.conversations id
                (push_route (route_to (to_connection_settings q) uuid last) talking.talk);
        }
    after_state q last =
        set_route_state now id (route_to (to_connection_settings q) uuid last) talking.talk
          s.route_manager fresh talking.has_talk

    after_lem :
        (q : SessionInfo) (last : Bool)
        → Talking r id sender recipient (count + 1) (after q last)
          × HasRoute uuid last (after q last)
          × ((n : String) → uuid ≢ n → Unused n s → Unused n (after q last))
    unfolding ready
    after_lem q last = (
      record {
        same = Same-trans talking.same (Same-touch now key w s has_session);
        talk = push_route (route_to (to_connection_settings q) uuid last) talking.talk;
        has_talk = rw after_state (get-insert_self s.route_manager.conversations id _);
        by_sender = talking.by_sender;
        to_recipient = talking.to_recipient;
        random = talking.random;
        counted =
            length-snoc talking.talk.value.routes (route_to (to_connection_settings q) uuid last)
            ∙ ap (λ (n : ℕ). n + 1) talking.counted;
      },
      (
        wrap now (route_to (to_connection_settings q) uuid last) routes_expiration_time,
        rw after_state (get-insert_self s.route_manager.routes uuid _),
        refl,
      ),
      λ n ne h. rw after_state (
          ground (
            arith,
            h,
            eq_iff uuid n,
            get-insert s.route_manager.routes uuid n
                (wrap now (route_to (to_connection_settings q) uuid last) routes_expiration_time),
          )),
    )

    -- A hop on the way: to a proxy other than the asker.
    pub hop :
        IsChoice choose
        → count ≢ 3
        → (p : SessionInfo) (ps : List SessionInfo) → get_proxies key r ≡ some (p ∷ ps)
        → (q : SessionInfo) × IsOtherProxy key r q
          × (b : Controller) × (route now uuid choose key id s ≡ (ok (answer q uuid false), b))
          × Talking r id sender recipient (count + 1) b
          × HasRoute uuid false b
          × ((n : String) → uuid ≢ n → Unused n s → Unused n b)
    unfolding ready
    hop fair more p ps found =
        let same = Same-trans talking.same (Same-touch now key w s has_session) in
        let (q, other, e) =
          route_hop now uuid choose key id s ready fresh fair p ps
            (λ three. more (sym talking.counted ∙ three)) (get_proxies-Same key same ∙ found) in
        let (talks, has, unused) = after_lem q false in
        (q, IsOtherProxy-Same key q same other, after q false, e, talks, has, unused)

    -- The last hop: to the recipient.
    pub last_hop :
        count ≡ 3
        → (q : SessionInfo) → get_client recipient r ≡ some q
        → (b : Controller) × (route now uuid choose key id s ≡ (ok (answer q uuid true), b))
          × Talking r id sender recipient (count + 1) b
          × HasRoute uuid true b
    unfolding ready
    last_hop three q found =
        let same = Same-trans talking.same (Same-touch now key w s has_session) in
        let (talks, has, _) = after_lem q true in
        (
          after q true,
          route_final now uuid choose key id s ready fresh q (talking.counted ∙ three)
              (rw talking.to_recipient (get_client-Same recipient same ∙ found)),
          talks,
          has,
        )
