-- ===== src/Controller/Redis/Sessions.antt =====
-- controller/src/storage/redis/session_repository.rs
pub mod Reads
pub mod Orphans
use Prim.Native.String as Text
use fuzzy_chat.Prelude.{
  ℕ, String, Option, none, some, List, [], ◌∷◌, length, Exec, ok, err, panic, pure, lift, continue,
  ◌==◌, if◌then◌else◌, ◌>>=◌, ◌>>◌, Outcome,
}
use fuzzy_chat.Crosscutting.Component.{Component, from_u8}
use fuzzy_chat.Controller.Models.{SessionInfo}
use fuzzy_chat.Controller.Storage.Sessions.{non_empty}
use fuzzy_chat.Controller.Redis.{
  Redis, Json, Write, set_ex, del, expire, unwrapped, ok_of, read_as, plain,
}

abbrev controller_session_key : String
controller_session_key = "ctrl_ss"

abbrev client_session_key : String
client_session_key = "c_ss"

abbrev proxy_session_key : String
proxy_session_key = "p_ss"

abbrev sessions_key : String
sessions_key = "ss"

-- `SESSIONS_EXPIRATION_TIME.as_secs()`
abbrev pub sessions_expiration_secs : ℕ
sessions_expiration_secs = 10

abbrev pub get_session_key : String → String
get_session_key key = Text.◌++◌ sessions_key (Text.◌++◌ ":" key)

abbrev component_key : Component → String
component_key Component.controller = controller_session_key
component_key Component.client = client_session_key
component_key Component.proxy = proxy_session_key

abbrev pub get_member_session_key : Component → String → String
get_member_session_key component_type uid =
    Text.◌++◌ (component_key component_type) (Text.◌++◌ ":" uid)

module _ {R : Type 0} (redis : Redis R) (json : Json SessionInfo) where
  -- An unknown component type panics before the pipe is run.
  unfoldable pub set_session : SessionInfo → Exec R String Unit
  unfolding from_u8
  set_session s = do
    component_type ← lift (from_u8 s.component_type)
    unwrapped (
        redis.atomic (
          set_ex (get_member_session_key component_type s.uid) s.access_key sessions_expiration_secs
          ∷ set_ex (get_session_key s.access_key) (json.to_string s) sessions_expiration_secs
          ∷ []))

  -- What a hit does: the index is renewed like the session.
  unfoldable renew_index : Option SessionInfo → Exec R String (Option SessionInfo)
  unfolding from_u8
  renew_index none = pure none
  renew_index (some s) = do
    component_type ← lift (from_u8 s.component_type)
    unwrapped (
        redis.write (expire (get_member_session_key component_type s.uid) sessions_expiration_secs))
    pure (some s)

  unfoldable pub get_session : String → Exec R String (Option SessionInfo)
  unfolding renew_index
  get_session access_key = do
    reply ←
        ok_of (read_as json (redis.get_ex (get_session_key access_key) sessions_expiration_secs))
    renew_index reply

  -- The index is left.
  unfoldable pub remove_session : String → Exec R String Unit
  remove_session access_key = unwrapped (redis.write (del (get_session_key access_key)))

  -- The sessions of index entries, but for the one that asks. An entry without a session panics.
  unfoldable pub other_sessions : String → List String → Exec R String (List SessionInfo)
  other_sessions access_key [] = pure []
  other_sessions access_key (entry ∷ entries) =
      let more = other_sessions access_key entries in
      do
        key ← unwrapped (read_as plain (redis.get entry))
        session ← unwrapped (read_as json (redis.get (get_session_key key)))
        rest ← more
        pure (if session.access_key == access_key then rest else session ∷ rest)

  unfoldable pub get_proxies : String → Exec R String (Option (List SessionInfo))
  unfolding other_sessions
  get_proxies access_key = do
    entries ← unwrapped (redis.scan_match (get_member_session_key Component.proxy "*"))
    proxies ← other_sessions access_key entries
    pure (non_empty proxies)

  -- An unknown uid panics; an index entry without a session gives nothing.
  unfoldable pub get_client : String → Exec R String (Option SessionInfo)
  get_client uid = do
    access_key ← unwrapped (read_as plain (redis.get (get_member_session_key Component.client uid)))
    ok_of (read_as json (redis.get (get_session_key access_key)))

  -- `count_proxies`, `count_clients` and `count_controllers`.
  unfoldable pub count : Component → Exec R String ℕ
  count component_type = do
    keys ← unwrapped (redis.scan_match (get_member_session_key component_type "*"))
    pure (length keys)
