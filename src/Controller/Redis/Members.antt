-- ===== src/Controller/Redis/Members.antt =====
-- controller/src/storage/redis/member_repository.rs
pub mod Reads
use fuzzy_chat.Prelude.{String, Option, Exec}
use fuzzy_chat.Controller.Models.{Member}
use fuzzy_chat.Controller.Redis.{Redis, Json, hset, unwrapped, ok_of, read_as}

abbrev pub member_key : String
member_key = "mb"

module _ {R : Type 0} (redis : Redis R) (json : Json Member) where
  unfoldable pub set_member : Member → Exec R String Unit
  set_member m = unwrapped (redis.write (hset member_key m.uid (json.to_string m)))

  unfoldable pub get_member : String → Exec R String (Option Member)
  get_member uid = ok_of (read_as json (redis.hget member_key uid))
