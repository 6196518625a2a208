-- ===== src/Controller/Startup.antt =====
-- controller/src/main.rs: the members that are seeded, and the session of the controller itself, which a
-- task sets anew every two seconds.
pub mod Announcing
use fuzzy_chat.Prelude.{
  ℕ, String, Option, none, some, List, [], ◌∷◌, ok, err, panic, Outcome, Status, ◌⊎◌, lift, ◌>>=◌,
  ◌>>◌, pure,
}
use fuzzy_chat.Crosscutting.Component.{
  Component, ComponentDescriptor, get_connection_settings, get_credentials,
}
use fuzzy_chat.Crosscutting.Endpoint.{AddrText, get_public_socket_address}
use fuzzy_chat.Crosscutting.Settings.{System, get_env_variable}
use fuzzy_chat.Controller.Membership.{seed_members_from_csv}
use fuzzy_chat.Controller.Session
use fuzzy_chat.Controller.State.{Handler}
use fuzzy_chat.Controller.Storage.Choice.{
  get_from_env, create_member_repository, create_route_repository, create_session_repository,
}

-- The records of a CSV file, by the `csv` crate; a file that cannot be opened panics.
unfoldable pub initialize : System → (String → Option (List (Option (List String)))) → Handler Unit
unfolding get_env_variable seed_members_from_csv
initialize system records_of = do
  path ← λ s. elim (get_env_variable "MEMBERS_CSV_FILE" system).0 [
    | ok path ↦ (ok path, s)
    | err e ↦ (panic, s)
    | panic ↦ (panic, s)
  ]
  records ← λ s. elim (records_of path) [ none ↦ (panic, s) | some records ↦ (ok records, s) ]
  seed_members_from_csv records

-- One turn of the task; `access_key` is a new `Uuid`. An address that is not valid panics.
unfoldable pub announce : AddrText → ComponentDescriptor → ℕ → String → Handler String
unfolding get_public_socket_address Session.set_session get_credentials get_connection_settings
announce addresses descriptor now access_key = do
  address ← lift (get_public_socket_address addresses (get_connection_settings descriptor))
  Session.set_session now access_key (get_credentials descriptor).uid Component.controller address
      (get_connection_settings descriptor)

-- The repositories of the session, the route and the member manager. A failure panics.
unfoldable pub create_domain_components :
    {M R : Type 0} → M → (String → Option R) → System → Outcome String ((M ⊎ R) × (M ⊎ R) × (M ⊎ R))
unfolding get_from_env create_member_repository create_route_repository create_session_repository
create_domain_components memory connect system =
    let type = get_from_env system in
    elim (create_member_repository memory connect type system) [
      | ok members ↦ elim (create_route_repository memory connect type system) [
        | ok routes ↦ elim (create_session_repository memory connect type system) [
          | ok sessions ↦ ok (sessions, routes, members)
          | _ ↦ panic
        ]
        | _ ↦ panic
      ]
      | _ ↦ panic
    ]
