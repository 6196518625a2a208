-- ===== src/Controller/Services/Routes/Redeeming.antt =====
-- What `redeem` of route_service.rs does.
use fuzzy_chat.Prelude.{
  List, [], ◌∷◌, ◌+◌, refl, ◌==◌, if◌then◌else◌, Outcome, Status, err, panic, Option, ap, sym, ◌∙◌,
  ℕ, String, ◌≡◌, some, false, true, ok, none, arith, is_ok, Option-cases, inl, inr, Bool-cases,
}
use mathlib.Core.Option.{some-injective}
use fuzzy_chat.Prelude.Dict
use fuzzy_chat.Controller.Models.{Conversation, RedeemResponse, Route}
use fuzzy_chat.Controller.State.{Controller}
use fuzzy_chat.Controller.Storage.Expiration.{ExpirationWrapper}
use fuzzy_chat.Controller.Storage.Sessions.Shrinks.{Wrapped}
use fuzzy_chat.Controller.Storage.Routes
use fuzzy_chat.Controller.Services.Guards.Facts.{
  touch, check_session-some, check_conversation-some, check_session-none, check_conversation-none,
}
use fuzzy_chat.Controller.Routing.{redeem_route, redeem_route_amid}
use fuzzy_chat.Controller.Services.Routes.{redeem, finish}
use fuzzy_chat.Prelude.Dict.{get-remove_self, get-remove, get-insert_self}

-- The state in which the route of a nonce is gone.
abbrev pub spent : String → Controller → Controller
spent nonce s = record s { route_manager = Routes.remove_route nonce s.route_manager }

-- The state in which a conversation is gone too.
abbrev pub ended : String → Controller → Controller
ended id s = record s { route_manager = Routes.remove_conversation id s.route_manager }

finish_lem :
    (id : String) (s : Controller) (v : ExpirationWrapper Conversation)
    → Dict.get s.route_manager.conversations id ≡ some v
    → finish id s ≡ (ok (record { source_info = some v.value.sender }), ended id s)
unfolding finish Routes.get_conversation
finish_lem id s v e = ground arith

module _ (now : ℕ) (key id nonce : String) (s : Controller) (w : Wrapped)
    (has_session : Dict.get s.session_manager.sessions key ≡ some w)
    (v : ExpirationWrapper Conversation)
    (has_conversation : Dict.get s.route_manager.conversations id ≡ some v) where
  -- A session redeems the nonce of an intermediate hop, with the id of any stored conversation: the
  -- answer has no sender, the session is renewed and the route is removed.
  pub redeem_hop :
      (route : ExpirationWrapper Route)
      → Dict.get s.route_manager.routes nonce ≡ some route
      → route.value.end_route ≡ false
      → redeem now key id nonce s
        ≡ (ok (record { source_info = none }), spent nonce (touch now key w s))
  unfolding redeem Routes.get_route Routes.get_conversation Routes.remove_route
  redeem_hop route e f = ground (
    arith,
    check_session-some now key s w has_session,
    check_conversation-some id (touch now key w s) v.value,
  )

  -- A session redeems the nonce of a last hop, with the id of any stored conversation: the answer
  -- tells that conversation's sender, the session is renewed, and the route and the conversation are
  -- removed.
  pub redeem_end :
      (route : ExpirationWrapper Route)
      → Dict.get s.route_manager.routes nonce ≡ some route
      → route.value.end_route ≡ true
      → redeem now key id nonce s ≡ (
        ok (record { source_info = some v.value.sender }),
        ended id (spent nonce (touch now key w s)),
      )
  unfolding redeem Routes.get_route Routes.get_conversation Routes.remove_route
  redeem_end route e f = ground (
    arith,
    check_session-some now key s w has_session,
    check_conversation-some id (touch now key w s) v.value,
    finish_lem id (spent nonce (touch now key w s)) v has_conversation,
  )

  -- A session redeems the nonce of a last hop, with the id of any stored conversation: the answer
  -- tells that conversation's sender; of the routes, that of the nonce is gone, and of the
  -- conversations, that one, and no other; and the session is kept for its duration from now on.
  pub redeem_ends :
      (route : ExpirationWrapper Route)
      → Dict.get s.route_manager.routes nonce ≡ some route
      → route.value.end_route ≡ true
      → let q = redeem now key id nonce s in
        (q.0 ≡ ok (record { source_info = some v.value.sender }))
        × ((j : String)
            → Dict.get q.1.route_manager.routes j
              ≡ (if nonce == j then none else Dict.get s.route_manager.routes j))
        × ((j : String)
            → Dict.get q.1.route_manager.conversations j
              ≡ (if id == j then none else Dict.get s.route_manager.conversations j))
        × (Dict.get q.1.session_manager.sessions key
            ≡ some (record w { expires_at = now + w.expiration_time }))
  unfolding Routes.remove_route Routes.remove_conversation
  redeem_ends route e f = rw (redeem_end route e f) (
    refl,
    λ j. get-remove s.route_manager.routes nonce j,
    λ j. get-remove s.route_manager.conversations id j,
    get-insert_self s.session_manager.sessions key _,
  )

module _ (now : ℕ) (key id nonce : String) (s : Controller) where
  redeem_no_session :
      Dict.get s.session_manager.sessions key ≡ none → is_ok (redeem now key id nonce s).0 ≡ false
  unfolding redeem
  redeem_no_session e = ground (arith, check_session-none now key s e)

  redeem_no_conversation :
      (w : Wrapped)
      → Dict.get s.session_manager.sessions key ≡ some w
      → Routes.get_conversation id s.route_manager ≡ none
      → is_ok (redeem now key id nonce s).0 ≡ false
  unfolding redeem
  redeem_no_conversation w e f =
      ground
        (arith, check_session-some now key s w e, check_conversation-none id (touch now key w s) f)

  redeem_no_route :
      (w : Wrapped) (c : Conversation)
      → Dict.get s.session_manager.sessions key ≡ some w
      → Routes.get_conversation id s.route_manager ≡ some c
      → Dict.get s.route_manager.routes nonce ≡ none
      → is_ok (redeem now key id nonce s).0 ≡ false
  unfolding redeem Routes.get_route
  redeem_no_route w c e f g =
      ground (
        arith,
        check_session-some now key s w e,
        check_conversation-some id (touch now key w s) c f,
      )

  -- A nonce that is not stored, any more or at all, is never redeemed, whoever asks and for whichever
  -- conversation.
  pub redeem_unknown :
      Dict.get s.route_manager.routes nonce ≡ none → is_ok (redeem now key id nonce s).0 ≡ false
  redeem_unknown e = elim (Option-cases (Dict.get s.session_manager.sessions key)) [
    | inl f ↦ redeem_no_session f
    | inr (w, f) ↦ elim (Option-cases (Routes.get_conversation id s.route_manager)) [
      | inl g ↦ redeem_no_conversation w f g
      | inr (c, g) ↦ redeem_no_route w c f g e
    ]
  ]

  get_conversation-none :
      Dict.get s.route_manager.conversations id ≡ none
      → Routes.get_conversation id s.route_manager ≡ none
  unfolding Routes.get_conversation
  get_conversation-none e = ground arith

  spent_route : Dict.get (Routes.remove_route nonce s.route_manager).routes nonce ≡ none
  unfolding Routes.remove_route
  spent_route = get-remove_self s.route_manager.routes nonce

  -- A successful redemption was one of a stored route, and removes its nonce.
  redeem_spends :
      is_ok (redeem now key id nonce s).0 ≡ true
      → Dict.get (redeem now key id nonce s).1.route_manager.routes nonce ≡ none
  unfolding Routes.remove_conversation
  redeem_spends h = elim (Option-cases (Dict.get s.session_manager.sessions key)) [
    | inl e ↦ cc (redeem_no_session e)
    | inr (w, e) ↦ elim (Option-cases (Dict.get s.route_manager.conversations id)) [
      | inl f ↦ cc (redeem_no_conversation w e (get_conversation-none f))
      | inr (v, f) ↦ elim (Option-cases (Dict.get s.route_manager.routes nonce)) [
        | inl g ↦ cc (redeem_unknown g)
        | inr (route, g) ↦ elim (Bool-cases route.value.end_route) [
          | inl last ↦ rw (redeem_end now key id nonce s w e v f route g last) spent_route
          | inr more ↦ rw (redeem_hop now key id nonce s w e v f route g more) spent_route
        ]
      ]
    ]
  ]

-- A redemption brings no route back.
redeem-missing :
    (now : ℕ) (key id nonce : String) (s : Controller) (other : String)
    → Dict.get s.route_manager.routes other ≡ none
    → Dict.get (redeem now key id nonce s).1.route_manager.routes other ≡ none
unfolding redeem Routes.remove_conversation Routes.remove_route Routes.get_route
    Routes.get_conversation
redeem-missing now key id nonce s other h =
    elim (Option-cases (Dict.get s.session_manager.sessions key)) [
      | inl e ↦ ground (arith, check_session-none now key s e, h)
      | inr (w, e) ↦ elim (Option-cases (Dict.get s.route_manager.conversations id)) [
        | inl f ↦ ground (
          arith,
          check_session-some now key s w e,
          check_conversation-none id (touch now key w s)
              (get_conversation-none now key id nonce s f),
          h,
        )
        | inr (v, f) ↦ elim (Option-cases (Dict.get s.route_manager.routes nonce)) [
          | inl g ↦ ground (
            arith,
            check_session-some now key s w e,
            check_conversation-some id (touch now key w s) v.value,
            f,
            g,
            h,
          )
          | inr (route, g) ↦
              let kept : Dict.get (Dict.remove s.route_manager.routes nonce) other ≡ none =
                get-remove s.route_manager.routes nonce other ∙ ground (arith, h) in
              elim (Bool-cases route.value.end_route) [
                | inl last ↦ rw (redeem_end now key id nonce s w e v f route g last) kept
                | inr more ↦ rw (redeem_hop now key id nonce s w e v f route g more) kept
              ]
        ]
      ]
    ]

not_ok : {A : Type 0} (x : Outcome Status A) (a : A) → is_ok x ≡ false → ¬ (x ≡ ok a)
not_ok (ok b) a h e = cc
not_ok (err s) a h e = cc
not_ok panic a h e = cc

-- The sender that a redemption tells is that of the stored conversation.
pub redeem_tells :
    (now : ℕ) (key id nonce u : String) (s : Controller)
    → (redeem now key id nonce s).0 ≡ ok (record { source_info = some u })
    → (v : ExpirationWrapper Conversation) × (Dict.get s.route_manager.conversations id ≡ some v)
      × (v.value.sender ≡ u)
redeem_tells now key id nonce u s h =
    elim (Option-cases (Dict.get s.session_manager.sessions key)) [
      | inl e ↦ absurd (not_ok _ _ (redeem_no_session now key id nonce s e) h)
      | inr (w, e) ↦ elim (Option-cases (Dict.get s.route_manager.conversations id)) [
        | inl f ↦
            let g = get_conversation-none now key id nonce s f in
            absurd (not_ok _ _ (redeem_no_conversation now key id nonce s w e g) h)
        | inr (v, f) ↦ elim (Option-cases (Dict.get s.route_manager.routes nonce)) [
          | inl g ↦ absurd (not_ok _ _ (redeem_unknown now key id nonce s g) h)
          | inr (route, g) ↦ elim (Bool-cases route.value.end_route) [
            | inl last ↦ (
              v,
              f,
              same_sender
                  (sym (ap result (redeem_end now key id nonce s w e v f route g last)) ∙ h),
            )
            | inr more ↦ absurd (
                no_sender
                  (sym (ap result (redeem_hop now key id nonce s w e v f route g more)) ∙ h))
          ]
        ]
      ]
    ]
  where
    result : Outcome Status RedeemResponse × Controller → Outcome Status RedeemResponse
    result x = x.0

    told : Outcome Status RedeemResponse → Option String
    told (ok r) = r.source_info
    told _ = none

    same_sender :
        {a b : String}
        → ◌≡◌ {A = Outcome Status RedeemResponse}
            (ok (record { source_info = some a }))
            (ok (record { source_info = some b }))
        → a ≡ b
    same_sender p = some-injective _ _ (ap told p)

    no_sender :
        {b : String}
        → ¬ ◌≡◌ {A = Outcome Status RedeemResponse}
            (ok (record { source_info = none }))
            (ok (record { source_info = some b }))
    no_sender p = cc (ap told p)

-- A request to redeem: when it comes, with which access key, and for which conversation and nonce.
pub record Redemption : Type 0 where
  pub now : ℕ
  pub access_key : String
  pub conversation_id : String
  pub nonce : String

-- Requests to redeem, one after the other.
abbrev pub redeem_all : List Redemption → Controller → Controller
redeem_all [] s = s
redeem_all (r ∷ rs) s = redeem_all rs (redeem r.now r.access_key r.conversation_id r.nonce s).1

redeem_all-missing :
    (rs : List Redemption) (nonce : String) (s : Controller)
    → Dict.get s.route_manager.routes nonce ≡ none
    → Dict.get (redeem_all rs s).route_manager.routes nonce ≡ none
redeem_all-missing [] nonce s e = e
redeem_all-missing (r ∷ rs) nonce s e =
    redeem_all-missing rs nonce (redeem r.now r.access_key r.conversation_id r.nonce s).1
      (redeem-missing r.now r.access_key r.conversation_id r.nonce s nonce e)

-- Where the controller handles one request after the other, and keeps its routes in memory: a nonce
-- that has been redeemed is not redeemed again. After any further requests to redeem, a request with
-- that nonce is not answered `ok`, whoever sends it, when and for whichever conversation.
pub redeem_once :
    (now later : ℕ) (key key' id id' nonce : String) (s : Controller) (between : List Redemption)
    → is_ok (redeem now key id nonce s).0 ≡ true
    → is_ok (redeem later key' id' nonce (redeem_all between (redeem now key id nonce s).1)).0
      ≡ false
redeem_once now later key key' id id' nonce s between h =
    redeem_unknown later key' id' nonce (redeem_all between (redeem now key id nonce s).1) (
      redeem_all-missing between nonce (redeem now key id nonce s).1
        (redeem_spends now key id nonce s h))

-- A route that is stored, of which two requests have read before either has removed it, is given to
-- both: a request that is handled between the two locks of another gives the route, and so does that
-- other, for whichever conversations; and then the route is gone.
pub redeem_route-race :
    (id id' nonce : String) (s : Controller) (route : ExpirationWrapper Route)
    → Dict.get s.route_manager.routes nonce ≡ some route
    → ((redeem_route id' nonce s).0 ≡ ok (some route.value))
      × ((redeem_route_amid (λ q. (redeem_route id' nonce q).1) id nonce s).0
          ≡ ok (some route.value))
      × (Dict.get
            (redeem_route_amid
              (λ q. (redeem_route id' nonce q).1)
              id
              nonce
              s).1.route_manager.routes
            nonce
          ≡ none)
unfolding redeem_route redeem_route_amid Routes.get_route Routes.remove_route
redeem_route-race id id' nonce s route e = (
  ground (arith, e),
  ground (arith, e),
  ground (arith, e, get-remove_self (Dict.remove s.route_manager.routes nonce) nonce),
)
