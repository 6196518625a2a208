-- ===== src/Controller/Storage/Sessions/Shrinks.antt =====
-- Looking up, removing and evicting sessions: what is there afterwards was there before, renewed at
-- most.
use fuzzy_chat.Prelude.{
  ℕ, String, ◌≡◌, refl, ◌∙◌, some, List, [], ◌∷◌, arith, Option-cases, Bool-cases, ◌==◌, inl, inr,
  eq_iff,
}
use fuzzy_chat.Prelude.Dict
use fuzzy_chat.Prelude.Dict.{Dict, get_of_remove, get-insert}
use fuzzy_chat.Controller.Models.{SessionInfo}
use fuzzy_chat.Controller.Storage.Expiration.{ExpirationWrapper}
use fuzzy_chat.Controller.Storage.Sessions.{
  SessionRepository, get_session, remove_session, evict, kill_expired, expired_sessions,
}

abbrev pub Wrapped : Type 0
Wrapped = ExpirationWrapper SessionInfo

-- `w'` is `w`, renewed or not.
abbrev pub Same : Wrapped → Wrapped → Type 0
Same w w' = (w'.value ≡ w.value) × (w'.expiration_time ≡ w.expiration_time)

-- Every session of `ss'` stands in `ss` under the same key.
abbrev pub ComesFrom : Dict Wrapped → Dict Wrapped → Type 0
ComesFrom ss ss' =
    (k : String) (w' : Wrapped)
    → Dict.get ss' k ≡ some w'
    → (w : Wrapped) × (Dict.get ss k ≡ some w) × Same w w'

pub record Shrinks (r r' : SessionRepository) : Type 0 where
  pub sessions : ComesFrom r.sessions r'.sessions
  pub clients : (u k : String) → Dict.get r'.clients u ≡ some k → Dict.get r.clients u ≡ some k
  pub controllers :
      (u k : String) → Dict.get r'.controllers u ≡ some k → Dict.get r.controllers u ≡ some k
  pub proxies : (u k : String) → Dict.get r'.proxies u ≡ some k → Dict.get r.proxies u ≡ some k

pub Shrinks-refl : (r : SessionRepository) → Shrinks r r
Shrinks-refl r = record {
  sessions = λ k w e. (w, e, (refl, refl));
  clients = λ u k e. e;
  controllers = λ u k e. e;
  proxies = λ u k e. e;
}

pub Shrinks-trans : {a b c : SessionRepository} → Shrinks a b → Shrinks b c → Shrinks a c
Shrinks-trans h g = record {
  sessions = λ k w e.
      let (w₁, e₁, s₁) = g.sessions k w e in
      let (w₂, e₂, s₂) = h.sessions k w₁ e₁ in (w₂, e₂, (s₁.0 ∙ s₂.0, s₁.1 ∙ s₂.1));
  clients = λ u k e. h.clients u k (g.clients u k e);
  controllers = λ u k e. h.controllers u k (g.controllers u k e);
  proxies = λ u k e. h.proxies u k (g.proxies u k e);
}

insert-ComesFrom :
    (ss : Dict Wrapped) (key : String) (v v' : Wrapped)
    → Dict.get ss key ≡ some v
    → Same v v'
    → ComesFrom ss (Dict.insert ss key v')
insert-ComesFrom ss key v v' e s k w h = elim (Bool-cases (key == k)) [
  | inl hit ↦ (v, ground (arith, eq_iff key k), ground (arith, get-insert ss key k v'))
  | inr miss ↦ (w, ground (arith, get-insert ss key k v'), (refl, refl))
]

pub get_session-Shrinks :
    (now : ℕ) (key : String) (r : SessionRepository) → Shrinks r (get_session now key r).1
unfolding get_session
get_session-Shrinks now key r = elim (Option-cases (Dict.get r.sessions key)) [
  | inl e ↦ rw (e, get_session) (Shrinks-refl r)
  | inr (v, e) ↦
      rw (e, get_session)
        (record {
          sessions = insert-ComesFrom r.sessions key v _ e (refl, refl);
          clients = λ u k h. h;
          controllers = λ u k h. h;
          proxies = λ u k h. h;
        })
]

pub remove_session-Shrinks :
    (key : String) (r : SessionRepository) → Shrinks r (remove_session key r)
unfolding remove_session
remove_session-Shrinks key r = elim (Option-cases (Dict.get r.sessions key)) [
  | inl e ↦ rw (e, remove_session) (Shrinks-refl r)
  | inr (v, e) ↦
      rw (e, remove_session)
        (record {
          sessions = λ k w h. (w, get_of_remove r.sessions key k w h, (refl, refl));
          clients = λ u k h. get_of_remove r.clients v.value.uid u k h;
          controllers = λ u k h. h;
          proxies = λ u k h. h;
        })
]

pub evict-Shrinks : (l : List (String × String)) (r : SessionRepository) → Shrinks r (evict l r)
unfolding evict
evict-Shrinks [] r = Shrinks-refl r
evict-Shrinks ((key, uid) ∷ rest) r =
    Shrinks-trans
      (record {
        sessions = λ k w h. (w, get_of_remove r.sessions key k w h, (refl, refl));
        clients = get_of_remove r.clients uid;
        controllers = get_of_remove r.controllers uid;
        proxies = get_of_remove r.proxies uid;
      })
      (evict-Shrinks rest _)

pub kill_expired-Shrinks : (now : ℕ) (r : SessionRepository) → Shrinks r (kill_expired now r)
unfolding kill_expired
kill_expired-Shrinks now r = evict-Shrinks (expired_sessions now (Dict.entries r.sessions)) r
