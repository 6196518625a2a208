-- ===== src/Controller/Storage/Sessions.antt =====
-- controller/src/storage/inmemory/session_repository.rs. One index by uid for each component type,
-- and the sessions by access key.
pub mod Shrinks
pub mod Invariant
pub mod Expiry
pub mod Lookup
pub mod Reachable
use fuzzy_chat.Prelude.{
  ℕ, String, Option, none, some, List, [], ◌∷◌, ◌==◌, if◌then◌else◌, Exec, ok, continue,
}
use fuzzy_chat.Prelude.Dict
use fuzzy_chat.Prelude.Dict.{Dict}
use fuzzy_chat.Crosscutting.Component.{Component, from_u8}
use fuzzy_chat.Controller.Models.{SessionInfo}
use fuzzy_chat.Controller.Storage.Expiration.{ExpirationWrapper, wrap, is_expired, renew}
use fuzzy_chat.Controller.Storage.Times.{sessions_expiration_time}

pub record SessionRepository : Type 0 where
  pub sessions : Dict (ExpirationWrapper SessionInfo)
  pub clients : Dict String
  pub controllers : Dict String
  pub proxies : Dict String

abbrev pub new : SessionRepository
new = record {
  sessions = Dict.empty;
  clients = Dict.empty;
  controllers = Dict.empty;
  proxies = Dict.empty;
}

-- The index that a component's uid goes to.
unfoldable pub index : Component → SessionInfo → SessionRepository → SessionRepository
index Component.client s r = record r { clients = Dict.insert r.clients s.uid s.access_key }
index Component.proxy s r = record r { proxies = Dict.insert r.proxies s.uid s.access_key }
index Component.controller s r = record r {
  controllers = Dict.insert r.controllers s.uid s.access_key;
}

unfoldable pub store : ℕ → SessionInfo → SessionRepository → SessionRepository
store now s r = record r {
  sessions = Dict.insert r.sessions s.access_key (wrap now s sessions_expiration_time);
}

-- An unknown component type panics.
unfoldable pub set_session : {E : Type 0} → ℕ → SessionInfo → Exec SessionRepository E Unit
unfolding from_u8 index store
set_session now s r =
    continue (from_u8 s.component_type) (λ c. λ q. (ok tt, store now s (index c s q))) r

-- A hit renews the session.
unfoldable pub get_session : ℕ → String → SessionRepository → Option SessionInfo × SessionRepository
get_session now key r = elim (Dict.get r.sessions key) [
  | none ↦ (none, r)
  | some w ↦ (some w.value, record r { sessions = Dict.insert r.sessions key (renew now w) })
]

-- Of the indexes only `clients` forgets the uid.
unfoldable pub remove_session : String → SessionRepository → SessionRepository
remove_session key r = elim (Dict.get r.sessions key) [
  | none ↦ r
  | some w ↦ record r {
    sessions = Dict.remove r.sessions key;
    clients = Dict.remove r.clients w.value.uid;
  }
]

-- The sessions of indexed proxies, but for the one that asks.
unfoldable pub other_sessions :
    String → Dict (ExpirationWrapper SessionInfo) → List (String × String) → List SessionInfo
other_sessions key sessions [] = []
other_sessions key sessions ((uid, k) ∷ rest) =
    let more = other_sessions key sessions rest in
    if k == key then more else elim (Dict.get sessions k) [ none ↦ more | some w ↦ w.value ∷ more ]

abbrev pub non_empty {ℓ} : {A : Type ℓ} → List A → Option (List A)
non_empty [] = none
non_empty (x ∷ xs) = some (x ∷ xs)

unfoldable pub get_proxies : String → SessionRepository → Option (List SessionInfo)
unfolding other_sessions
get_proxies key r = non_empty (other_sessions key r.sessions (Dict.entries r.proxies))

unfoldable pub get_client : String → SessionRepository → Option SessionInfo
get_client uid r = elim (Dict.get r.clients uid) [
  | none ↦ none
  | some key ↦ elim (Dict.get r.sessions key) [ none ↦ none | some w ↦ some w.value ]
]

unfoldable pub count_proxies : SessionRepository → ℕ
count_proxies r = Dict.len r.proxies

unfoldable pub count_clients : SessionRepository → ℕ
count_clients r = Dict.len r.clients

unfoldable pub count_controllers : SessionRepository → ℕ
count_controllers r = Dict.len r.controllers

-- `expired_sessions`: access key and uid of what has expired.
unfoldable pub expired_sessions :
    ℕ → List (String × ExpirationWrapper SessionInfo) → List (String × String)
expired_sessions now [] = []
expired_sessions now ((k, w) ∷ rest) =
    let more = expired_sessions now rest in
    if is_expired now w then (w.value.access_key, w.value.uid) ∷ more else more

unfoldable pub evict : List (String × String) → SessionRepository → SessionRepository
evict [] r = r
evict ((key, uid) ∷ rest) r = evict rest (record {
  sessions = Dict.remove r.sessions key;
  clients = Dict.remove r.clients uid;
  controllers = Dict.remove r.controllers uid;
  proxies = Dict.remove r.proxies uid;
})

-- One round of the task that `kill_expired_sessions` spawns.
unfoldable pub kill_expired : ℕ → SessionRepository → SessionRepository
unfolding expired_sessions evict
kill_expired now r = evict (expired_sessions now (Dict.entries r.sessions)) r
