-- ===== src/Controller/Redis.antt =====
-- controller/src/storage/redis: what the repositories that keep their data in Redis use of the `redis`
-- and `serde_json` crates. A command that the server refuses is an error, and `unwrap` makes it a
-- panic.
pub mod Laws
pub mod Keys
pub mod Replies
pub mod Sessions
pub mod Routes
pub mod Members
use fuzzy_chat.Prelude.{ℕ, String, Option, none, some, List, Exec, Outcome, ok, err, panic}

-- The commands that write.
pub data Write : Type 0 where
  set_ex : String → String → ℕ → Write
  del : String → Write
  expire : String → ℕ → Write
  hset : String → String → String → Write
  hdel : String → String → Write

-- A connection to a server with states in `R`. A reply that may be nil is an `Option`; `atomic` runs the
-- commands of a pipe.
pub record Redis (R : Type 0) : Type 0 where
  pub write : Write → Exec R String Unit
  pub atomic : List Write → Exec R String Unit
  pub get : String → Exec R String (Option String)
  pub get_ex : String → ℕ → Exec R String (Option String)
  pub hget : String → String → Exec R String (Option String)
  pub scan_match : String → Exec R String (List String)

-- `serde_json` at a type.
pub record Json (A : Type 0) : Type 0 where
  pub to_string : A → String
  pub from_str : String → Option A

-- `FromRedisValue`: nil is an error, and a text that is no JSON of the type panics.
abbrev pub from_redis_value : {A : Type 0} → Json A → Option String → Outcome String A
from_redis_value json none = err "Response type not string compatible."
from_redis_value json (some text) = elim (json.from_str text) [ none ↦ panic | some a ↦ ok a ]

module _ {R A : Type 0} where
  -- `unwrap` of a reply.
  abbrev pub unwrapped : Exec R String A → Exec R String A
  unwrapped m s = elim (m s).0 [
    | ok a ↦ (ok a, (m s).1)
    | err e ↦ (panic, (m s).1)
    | panic ↦ (panic, (m s).1)
  ]

  -- `ok()` of a reply.
  abbrev pub ok_of : Exec R String A → Exec R String (Option A)
  ok_of m s = elim (m s).0 [
    | ok a ↦ (ok (some a), (m s).1)
    | err e ↦ (ok none, (m s).1)
    | panic ↦ (panic, (m s).1)
  ]

  -- A reply read at a type.
  abbrev pub read_as : Json A → Exec R String (Option String) → Exec R String A
  read_as json m s = elim (m s).0 [
    | ok reply ↦ (from_redis_value json reply, (m s).1)
    | err e ↦ (err e, (m s).1)
    | panic ↦ (panic, (m s).1)
  ]

-- A text is read as it is.
abbrev pub plain : Json String
plain = record { to_string = λ text. text; from_str = λ text. some text }
