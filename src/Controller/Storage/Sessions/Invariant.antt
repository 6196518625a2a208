-- ===== src/Controller/Storage/Sessions/Invariant.antt =====
-- The invariant of the session repository: sessions stand under their access keys, and an index of
-- a component type leads only to sessions of that type and uid.
use fuzzy_chat.Prelude.{ℕ, String, ◌≡◌, ◌≢◌, ap, ◌∙◌, none, some, arith, eq_iff}
use fuzzy_chat.Prelude.Dict
use fuzzy_chat.Prelude.Dict.{Dict, get-remove, get-insert, get-empty}
use fuzzy_chat.Crosscutting.Component.{Component, to_u8}
use fuzzy_chat.Controller.Models.{SessionInfo}
use fuzzy_chat.Controller.Storage.Expiration.{wrap}
use fuzzy_chat.Controller.Storage.Times.{sessions_expiration_time}
use fuzzy_chat.Controller.Storage.Sessions.{
  SessionRepository, new, index, store, get_session, remove_session, kill_expired,
}
use fuzzy_chat.Controller.Storage.Sessions.Shrinks.{
  Wrapped, ComesFrom, Shrinks, get_session-Shrinks, remove_session-Shrinks, kill_expired-Shrinks,
}

abbrev pub LeadsTo : Component → Dict String → Dict Wrapped → Type 0
LeadsTo c ix sessions =
    (uid k : String) (w : Wrapped)
    → Dict.get ix uid ≡ some k
    → Dict.get sessions k ≡ some w
    → (w.value.uid ≡ uid) × (w.value.component_type ≡ to_u8 c)

pub record WellFormed (r : SessionRepository) : Type 0 where
  pub keyed :
      (k : String) (w : Wrapped)
      → Dict.get r.sessions k ≡ some w
      → (w.value.access_key ≡ k) × (w.expiration_time ≡ sessions_expiration_time)
  pub client_index : LeadsTo Component.client r.clients r.sessions
  pub controller_index : LeadsTo Component.controller r.controllers r.sessions
  pub proxy_index : LeadsTo Component.proxy r.proxies r.sessions

-- The access key has never been given out.
pub record Fresh (key : String) (r : SessionRepository) : Type 0 where
  pub no_session : Dict.get r.sessions key ≡ none
  pub no_client : (uid : String) → Dict.get r.clients uid ≢ some key
  pub no_controller : (uid : String) → Dict.get r.controllers uid ≢ some key
  pub no_proxy : (uid : String) → Dict.get r.proxies uid ≢ some key

pub new-WellFormed : WellFormed new
new-WellFormed = record {
  keyed = λ k w e. cc (get-empty {V = Wrapped} k);
  client_index = λ u k w e h. cc (get-empty {V = String} u);
  controller_index = λ u k w e h. cc (get-empty {V = String} u);
  proxy_index = λ u k w e h. cc (get-empty {V = String} u);
}

shrinks_LeadsTo :
    (c : Component) (ix ix' : Dict String) (ss ss' : Dict Wrapped)
    → LeadsTo c ix ss
    → ((u k : String) → Dict.get ix' u ≡ some k → Dict.get ix u ≡ some k)
    → ComesFrom ss ss'
    → LeadsTo c ix' ss'
shrinks_LeadsTo c ix ix' ss ss' h f g uid k w e e' =
    let (w₀, e₀, v) = g k w e' in
    let p = h uid k w₀ (f uid k e) e₀ in
    (
      ap (λ (s : SessionInfo). s.uid) v.0 ∙ p.0,
      ap (λ (s : SessionInfo). s.component_type) v.0 ∙ p.1,
    )

pub Shrinks-WellFormed : {r r' : SessionRepository} → Shrinks r r' → WellFormed r → WellFormed r'
Shrinks-WellFormed g h = record {
  keyed = λ k w' e'.
      let (w, e, s) = g.sessions k w' e' in
      let p = h.keyed k w e in (ap (λ (i : SessionInfo). i.access_key) s.0 ∙ p.0, s.1 ∙ p.1);
  client_index = shrinks_LeadsTo _ _ _ _ _ h.client_index g.clients g.sessions;
  controller_index = shrinks_LeadsTo _ _ _ _ _ h.controller_index g.controllers g.sessions;
  proxy_index = shrinks_LeadsTo _ _ _ _ _ h.proxy_index g.proxies g.sessions;
}

pub get_session-WellFormed :
    (now : ℕ) (key : String) {r : SessionRepository}
    → WellFormed r
    → WellFormed (get_session now key r).1
get_session-WellFormed now key = Shrinks-WellFormed (get_session-Shrinks now key _)

pub remove_session-WellFormed :
    (key : String) {r : SessionRepository} → WellFormed r → WellFormed (remove_session key r)
remove_session-WellFormed key = Shrinks-WellFormed (remove_session-Shrinks key _)

pub kill_expired-WellFormed :
    (now : ℕ) {r : SessionRepository} → WellFormed r → WellFormed (kill_expired now r)
kill_expired-WellFormed now = Shrinks-WellFormed (kill_expired-Shrinks now _)

-- A new session goes under its own index.
index_own :
    (c : Component) (ix : Dict String) (ss : Dict Wrapped) (w : Wrapped)
    → LeadsTo c ix ss
    → ((uid : String) → Dict.get ix uid ≢ some w.value.access_key)
    → w.value.component_type ≡ to_u8 c
    → LeadsTo c
        (Dict.insert ix w.value.uid w.value.access_key)
        (Dict.insert ss w.value.access_key w)
index_own c ix ss w h fresh type u k v e e' = ground (
  arith,
  get-insert ix w.value.uid u w.value.access_key,
  get-insert ss w.value.access_key k w,
  eq_iff w.value.access_key k,
  eq_iff w.value.uid u,
  h u k v,
  fresh u,
)

-- The other indexes do not know its key.
index_other :
    (c : Component) (ix : Dict String) (ss : Dict Wrapped) (w : Wrapped)
    → LeadsTo c ix ss
    → ((uid : String) → Dict.get ix uid ≢ some w.value.access_key)
    → LeadsTo c ix (Dict.insert ss w.value.access_key w)
index_other c ix ss w h fresh u k v e e' =
    ground
      (arith, get-insert ss w.value.access_key k w, eq_iff w.value.access_key k, h u k v e, fresh u)

insert_keyed :
    (now : ℕ) (s : SessionInfo) (r : SessionRepository) (k : String) (w : Wrapped)
    → WellFormed r
    → Dict.get (store now s r).sessions k ≡ some w
    → (w.value.access_key ≡ k) × (w.expiration_time ≡ sessions_expiration_time)
unfolding store
insert_keyed now s r k w h e = ground (
  arith,
  get-insert r.sessions s.access_key k (wrap now s sessions_expiration_time),
  eq_iff s.access_key k,
  h.keyed k w,
)

-- Indexing and storing a session of a component type, under an access key that was never given out,
-- keeps the repository well formed.
pub store-index-WellFormed :
    (now : ℕ) (c : Component) (s : SessionInfo) {r : SessionRepository}
    → s.component_type ≡ to_u8 c
    → Fresh s.access_key r
    → WellFormed r
    → WellFormed (store now s (index c s r))
unfolding store index
store-index-WellFormed now Component.client s {r} t f h = record {
  keyed = λ k w e. insert_keyed now s r k w h e;
  client_index = index_own _ _ _ (wrap now s sessions_expiration_time) h.client_index f.no_client t;
  controller_index =
      index_other _ _ _ (wrap now s sessions_expiration_time) h.controller_index f.no_controller;
  proxy_index = index_other _ _ _ (wrap now s sessions_expiration_time) h.proxy_index f.no_proxy;
}
store-index-WellFormed now Component.proxy s {r} t f h = record {
  keyed = λ k w e. insert_keyed now s r k w h e;
  client_index = index_other _ _ _ (wrap now s sessions_expiration_time) h.client_index f.no_client;
  controller_index =
      index_other _ _ _ (wrap now s sessions_expiration_time) h.controller_index f.no_controller;
  proxy_index = index_own _ _ _ (wrap now s sessions_expiration_time) h.proxy_index f.no_proxy t;
}
store-index-WellFormed now Component.controller s {r} t f h = record {
  keyed = λ k w e. insert_keyed now s r k w h e;
  client_index = index_other _ _ _ (wrap now s sessions_expiration_time) h.client_index f.no_client;
  controller_index =
      index_own _ _ _ (wrap now s sessions_expiration_time) h.controller_index f.no_controller t;
  proxy_index = index_other _ _ _ (wrap now s sessions_expiration_time) h.proxy_index f.no_proxy;
}
