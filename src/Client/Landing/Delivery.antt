-- ===== src/Client/Landing/Delivery.antt =====
-- What a client receives when it redeems at the controller.
use fuzzy_chat.Prelude.{
  ℕ, String, List, ◌≡◌, true, false, some, is_ok, ok, panic, arith, Outcome, Status, inl, inr, ◌++◌,
  ◌∷◌, [], Bool-cases,
}
use fuzzy_chat.Prelude.Dict
use fuzzy_chat.Controller.Models.{Conversation, Route, RedeemResponse}
use fuzzy_chat.Controller.State.{Controller}
use fuzzy_chat.Controller.Routing.Strategy.{Choose}
use fuzzy_chat.Controller.Services.Routes
use fuzzy_chat.Controller.Services.Routes.Redeeming.{
  Redemption, redeem_all, redeem_once, redeem_end, redeem_hop, ended, spent,
}
use fuzzy_chat.Controller.Services.Guards.Facts.{touch}
use fuzzy_chat.Controller.Storage.Expiration.{ExpirationWrapper}
use fuzzy_chat.Controller.Storage.Sessions.Shrinks.{Wrapped}
use fuzzy_chat.Gateway.RouteClient.{route_client}
use fuzzy_chat.Client.Landing.{Landing, TextRequest, receive, new_message}

-- The redemption that a request asks for.
abbrev redeemed : ℕ → TextRequest → Landing Controller → Outcome Status RedeemResponse × Controller
redeemed now r l = Routes.redeem now r.access_key r.conversation_id r.nonce l.world

-- A client after requests to redeem at its controller.
abbrev pub afterwards : List Redemption → Landing Controller → Landing Controller
afterwards between l = record l { world = redeem_all between l.world }

module _ (conversation_uuid uuid : String) (choose : Choose) (show : Status → String)
    (lost : String) (from_utf8_lossy : List ℕ → String) where
  -- What it is to receive at an instant.
  abbrev pub receive_at :
      ℕ → TextRequest → Landing Controller → Outcome Status Unit × Landing Controller
  receive_at now =
      receive (route_client now conversation_uuid uuid choose show lost) from_utf8_lossy now

  receive_world :
      (now : ℕ) (r : TextRequest) (l : Landing Controller)
      → (receive_at now r l).1.world ≡ (redeemed now r l).1
  unfolding receive route_client
  receive_world now r l = ground arith

  receive_refused :
      (now : ℕ) (r : TextRequest) (l : Landing Controller)
      → is_ok (redeemed now r l).0 ≡ false
      → (is_ok (receive_at now r l).0 ≡ false) × ((receive_at now r l).1.channel ≡ l.channel)
  unfolding receive route_client
  receive_refused now r l h = ground arith

  received_redeemed :
      (now : ℕ) (r : TextRequest) (l : Landing Controller)
      → is_ok (receive_at now r l).0 ≡ true
      → is_ok (redeemed now r l).0 ≡ true
  received_redeemed now r l h = elim (Bool-cases (is_ok (redeemed now r l).0)) [
    | inl did ↦ did
    | inr not_done ↦ let (refused, _) = receive_refused now r l not_done in cc
  ]

  -- Where the controller handles one request after the other, and keeps its routes in memory: after a
  -- client has accepted a request, and anyone has made any further requests to redeem, the client
  -- accepts no request with the same nonce, by any access key and for any conversation, and puts
  -- nothing into the channel.
  pub receive_once :
      (now later : ℕ) (r again : TextRequest) (l : Landing Controller) (between : List Redemption)
      → is_ok (receive_at now r l).0 ≡ true
      → again.nonce ≡ r.nonce
      → (is_ok (receive_at later again (afterwards between (receive_at now r l).1)).0 ≡ false)
        × ((receive_at later again (afterwards between (receive_at now r l).1)).1.channel
            ≡ (receive_at now r l).1.channel)
  receive_once now later r again l between h same =
      receive_refused later again (afterwards between (receive_at now r l).1) (
        rw (receive_world now r l, same)
          (redeem_once now later r.access_key again.access_key r.conversation_id
            again.conversation_id r.nonce l.world between (received_redeemed now r l h)))

  module _ (now : ℕ) (r : TextRequest) (l : Landing Controller) (w : Wrapped)
      (has_session : Dict.get l.world.session_manager.sessions r.access_key ≡ some w)
      (v : ExpirationWrapper Conversation)
      (has_conversation : Dict.get l.world.route_manager.conversations r.conversation_id ≡ some v)
      (route : ExpirationWrapper Route)
      (has_route : Dict.get l.world.route_manager.routes r.nonce ≡ some route) where
    -- A client over a controller that receives a request with the access key of a session, the id
    -- of a stored conversation and the nonce of a last hop accepts it, and puts the content into
    -- the channel, as a message from that conversation's sender; the route and the conversation
    -- are removed.
    pub receive_end :
        route.value.end_route ≡ true
        → receive_at now r l ≡ (
          ok tt,
          record {
            world = ended r.conversation_id (spent r.nonce (touch now r.access_key w l.world));
            channel =
                l.channel ++ new_message from_utf8_lossy now v.value.sender "myself" r.content ∷ [];
          },
        )
    unfolding receive route_client
    receive_end e = ground (
      arith,
      redeem_end now r.access_key r.conversation_id r.nonce l.world w has_session v has_conversation
          route has_route e,
    )

    -- A client over a controller that receives a request with the access key of a session, the id
    -- of a stored conversation and the nonce of an intermediate hop panics and puts nothing into
    -- the channel, and the nonce is spent.
    pub receive_hop :
        route.value.end_route ≡ false
        → receive_at now r l
          ≡ (panic, record l { world = spent r.nonce (touch now r.access_key w l.world) })
    unfolding receive route_client
    receive_hop e = ground (
      arith,
      redeem_hop now r.access_key r.conversation_id r.nonce l.world w has_session v has_conversation
          route has_route e,
    )
