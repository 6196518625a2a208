-- ===== src/Controller/Storage/Choice.antt =====
-- controller/src/storage/mod.rs: which repositories a controller keeps its data in.
use fuzzy_chat.Prelude.{
  ℕ, eqb, if◌then◌else◌, String, Option, none, some, Outcome, ok, err, ◌⊎◌, inl, inr,
}
use fuzzy_chat.Crosscutting.Settings.{System, get_env_variable, parse_u8}

pub data RepositoryType : Type 0 where
  in_memory redis : RepositoryType

-- `RepositoryType::from(u8)`
unfoldable pub from_number : ℕ → RepositoryType
from_number value = if eqb value 1 then redis else in_memory

-- What an environment variable holds, or the empty text.
abbrev variable_of : String → System → String
variable_of name system = elim (get_env_variable name system).0 [ ok text ↦ text | _ ↦ "" ]

-- `RepositoryType::get_from_env`
unfoldable pub get_from_env : System → RepositoryType
unfolding from_number parse_u8 get_env_variable
get_from_env system = elim (parse_u8 (variable_of "REPOSITORY" system)) [
  | none ↦ in_memory
  | some n ↦ from_number n
]

-- The repositories of a kind: in memory, and in Redis at a URL, where connecting may panic.
module _ {M R : Type 0} (memory : M) (connect : String → Option R) where
  -- The panic is caught.
  unfoldable create_repository : String → RepositoryType → System → Outcome String (M ⊎ R)
  unfolding get_env_variable
  create_repository error in_memory system = ok (inl memory)
  create_repository error redis system = elim (connect (variable_of "REDIS_URL" system)) [
    | none ↦ err error
    | some r ↦ ok (inr r)
  ]

  unfoldable pub create_session_repository : RepositoryType → System → Outcome String (M ⊎ R)
  unfolding create_repository
  create_session_repository = create_repository "Failed to create the session's Redis repository"

  unfoldable pub create_route_repository : RepositoryType → System → Outcome String (M ⊎ R)
  unfolding create_repository
  create_route_repository = create_repository "Failed to create the route's Redis repository"

  unfoldable pub create_member_repository : RepositoryType → System → Outcome String (M ⊎ R)
  unfolding create_repository
  create_member_repository = create_repository "Failed to create the member's Redis repository"
