-- ===== src/Controller/Redis/Routes/Reads.antt =====
-- What is read after a route has been set, and after it has been removed.
use Prim.Native.String as Text
use fuzzy_chat.Prelude.{
  String, none, some, [], ◌∷◌, ◌++◌, ok, panic, ◌≡◌, ◌≢◌, refl, arith, ap, ◌∙◌, sym, ◌==◌, eq_refl,
  false,
}
use fuzzy_chat.Controller.Models.{Conversation, Route}
use fuzzy_chat.Controller.Redis.{Redis, Json}
use fuzzy_chat.Controller.Redis.Laws.{IsRedis, ReadsBack}
use fuzzy_chat.Controller.Redis.Keys.{begins_ne, same_kind}
use fuzzy_chat.Controller.Redis.Replies.{read_some, read_nil}
use fuzzy_chat.Controller.Redis.Routes.{
  get_conversation, set_route, get_route, remove_route, get_conversation_key, get_routes_key,
  expiration_secs,
}

-- The conversation with one route more.
abbrev pub with_route : Conversation → Route → Conversation
with_route c route = record c { routes = c.routes ++ route ∷ [] }

module _ {R : Type 0} (redis : Redis R) (laws : IsRedis redis) (conversations : Json Conversation)
    (routes : Json Route) where
  keys_differ : (id j : String) → (get_conversation_key id == get_routes_key j) ≡ false
  keys_differ id j = begins_ne "c" "r" "s" "s" (Text.◌++◌ ":" id) (Text.◌++◌ ":" j) refl

  get_conversation-some :
      (id : String) (c : Conversation) (s : R)
      → ReadsBack conversations c
      → laws.text s (get_conversation_key id) ≡ some (conversations.to_string c)
      → get_conversation redis conversations routes id s ≡ (ok (some c), s)
  unfolding get_conversation
  get_conversation-some id c s back h =
      read_some conversations (redis.get (get_conversation_key id)) s s c back
        (laws.get_text (get_conversation_key id) (conversations.to_string c) s h)

  module _ (id : String) (route : Route) (c : Conversation) (s : R)
      (back : ReadsBack conversations c)
      (talk : laws.text s (get_conversation_key id) ≡ some (conversations.to_string c))
      (is_hash : laws.text s (get_routes_key id) ≡ none) where
    -- The server after the route of a known conversation has been set.
    set_route_steps :
        (q : R) × (set_route redis conversations routes id route s ≡ (ok (some route.nonce), q))
        × (laws.text q (get_conversation_key id)
            ≡ some (conversations.to_string (with_route c route)))
        × (laws.text q (get_routes_key id) ≡ none)
        × (laws.field q (get_routes_key id) route.nonce ≡ some (routes.to_string route))
    unfolding set_route
    set_route_steps =
        let hash = get_routes_key id in
        let key = get_conversation_key id in
        let (a, e, ta, fa) = laws.hset_field hash route.nonce (routes.to_string route) s is_hash in
        let (b, f, tb, fb) = laws.expire_text hash expiration_secs a in
        let (d, g, td, fd) =
          laws.set_ex_text key (conversations.to_string (with_route c route)) expiration_secs b in
        let pipe =
          laws.atomic_cons _ _ s a e
          ∙ laws.atomic_cons _ _ a b f
          ∙ laws.atomic_cons _ _ b d g
          ∙ laws.atomic_nil d in
        (
          d,
          ground (arith, get_conversation-some id c s back talk, pipe),
          td key ∙ ground (arith, eq_refl key),
          td hash ∙ ground (arith, keys_differ id id, tb hash, ta hash, is_hash),
          fd hash route.nonce
              ∙ ground (
                arith,
                keys_differ id id,
                fb hash route.nonce,
                fa hash route.nonce,
                eq_refl hash,
                eq_refl route.nonce,
              ),
        )

  -- A route of a stored conversation, whose key for routes holds no text, is found by its nonce once
  -- set, and the conversation then has it for its last; the route and the conversation before and
  -- after are those that their JSON gives back.
  pub set_get_route :
      (id : String) (route : Route) (c : Conversation) (s : R)
      → ReadsBack conversations c
      → ReadsBack conversations (with_route c route)
      → ReadsBack routes route
      → laws.text s (get_conversation_key id) ≡ some (conversations.to_string c)
      → laws.text s (get_routes_key id) ≡ none
      → (q : R) × (set_route redis conversations routes id route s ≡ (ok (some route.nonce), q))
        × (get_route redis conversations routes id route.nonce q ≡ (ok (some route), q))
        × (get_conversation redis conversations routes id q ≡ (ok (some (with_route c route)), q))
  unfolding get_route
  set_get_route id route c s back next_back route_back talk is_hash =
      let (q, e, h, no_text, g) = set_route_steps id route c s back talk is_hash in
      let hash = get_routes_key id in
      (
        q,
        e,
        read_some routes (redis.hget hash route.nonce) q q route route_back
            (laws.hget_field hash route.nonce q no_text ∙ ap (λ t. (ok t, q)) g),
        get_conversation-some id (with_route c route) q next_back h,
      )

  -- A route of an unknown conversation panics, and nothing is stored.
  pub set_route-unknown :
      (id : String) (route : Route) (s : R)
      → laws.text s (get_conversation_key id) ≡ none
      → ((f : String) → laws.field s (get_conversation_key id) f ≡ none)
      → set_route redis conversations routes id route s ≡ (panic, s)
  unfolding set_route get_conversation
  set_route-unknown id route s h g =
      let reply =
        read_nil conversations (redis.get (get_conversation_key id)) s s
          (laws.get_nil (get_conversation_key id) s h g) in
      ground (arith, reply)

  -- Where neither the key for routes of the nonce nor that of the conversation's id holds a text, and
  -- the id is not the nonce itself, a removal of the nonce succeeds, and leaves the route under that
  -- nonce in the conversation.
  pub remove_route_keeps :
      (id nonce : String) (s : R)
      → id ≢ nonce
      → laws.text s (get_routes_key nonce) ≡ none
      → laws.text s (get_routes_key id) ≡ none
      → (q : R) × (remove_route redis conversations routes nonce s ≡ (ok tt, q))
        × ((get_route redis conversations routes id nonce q).0
            ≡ (get_route redis conversations routes id nonce s).0)
  unfolding remove_route get_route
  remove_route_keeps id nonce s other h g =
      let hash = get_routes_key nonce in
      let mine = get_routes_key id in
      let (q, e, texts, fields) = laws.hdel_field hash nonce s h in
      let kept : laws.field q mine nonce ≡ laws.field s mine nonce =
        fields mine nonce ∙ ground (arith, same_kind "rs" nonce id (λ e. other (sym e))) in
      (
        q,
        ground (arith, e),
        ground (
          arith,
          laws.hget_field mine nonce q (texts mine ∙ g),
          laws.hget_field mine nonce s g,
          kept,
        ),
      )
