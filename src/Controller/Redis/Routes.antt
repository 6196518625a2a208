-- ===== src/Controller/Redis/Routes.antt =====
-- controller/src/storage/redis/route_repository.rs. The routes of a conversation are a hash from nonces.
pub mod Reads
use Prim.Native.String as Text
use fuzzy_chat.Prelude.{
  ℕ, String, Option, none, some, List, [], ◌∷◌, ◌++◌, Exec, ok, err, panic, pure, unwrap, ◌>>=◌,
  ◌>>◌,
}
use fuzzy_chat.Controller.Models.{Conversation, Route}
use fuzzy_chat.Controller.Redis.{
  Redis, Json, Write, set_ex, del, expire, hset, hdel, unwrapped, ok_of, read_as,
}

abbrev conversations_key : String
conversations_key = "cs"

abbrev routes_key : String
routes_key = "rs"

-- The expiration times of routes and conversations in seconds.
abbrev pub expiration_secs : ℕ
expiration_secs = 60

abbrev pub get_conversation_key : String → String
get_conversation_key conversation_id = Text.◌++◌ conversations_key (Text.◌++◌ ":" conversation_id)

abbrev pub get_routes_key : String → String
get_routes_key conversation_id = Text.◌++◌ routes_key (Text.◌++◌ ":" conversation_id)

module _ {R : Type 0} (redis : Redis R) (conversations : Json Conversation)
    (routes : Json Route) where
  unfoldable pub set_conversation : Conversation → Exec R String (Option String)
  set_conversation c = do
    unwrapped (
        redis.write
          (set_ex (get_conversation_key c.id) (conversations.to_string c) expiration_secs))
    pure (some c.id)

  unfoldable pub remove_conversation : String → Exec R String Unit
  remove_conversation id = unwrapped (redis.write (del (get_conversation_key id)))

  unfoldable pub get_conversation : String → Exec R String (Option Conversation)
  get_conversation id = ok_of (read_as conversations (redis.get (get_conversation_key id)))

  -- An unknown conversation panics.
  unfoldable pub set_route : String → Route → Exec R String (Option String)
  unfolding get_conversation
  set_route id route = do
    found ← get_conversation id
    conversation ← unwrap found
    let key = get_routes_key id
    let next : Conversation = record conversation { routes = conversation.routes ++ route ∷ [] }
    unwrapped (
        redis.atomic (
          hset key route.nonce (routes.to_string route)
          ∷ expire key expiration_secs
          ∷ set_ex (get_conversation_key id) (conversations.to_string next) expiration_secs
          ∷ []))
    pure (some route.nonce)

  unfoldable pub get_route : String → String → Exec R String (Option Route)
  get_route id nonce = ok_of (read_as routes (redis.hget (get_routes_key id) nonce))

  -- The key is made of the nonce.
  unfoldable pub remove_route : String → Exec R String Unit
  remove_route nonce = unwrapped (redis.write (hdel (get_routes_key nonce) nonce))
