-- ===== src/Controller/Storage/Sessions/Expiry.antt =====
-- What one round of `kill_expired_sessions` leaves.
use fuzzy_chat.Prelude.{
  ℕ, String, ◌≡◌, refl, sym, ◌∙◌, Bool, true, false, ◌||◌, Option, none, some, List, [], ◌∷◌, arith,
  Bool-cases, Option-cases, ◌==◌, inl, inr, eq_iff, if◌then◌else◌, In, here, there,
}
use fuzzy_chat.Prelude.Dict
use fuzzy_chat.Prelude.Dict.{Dict, get-remove, get_of_entry, entry_of_get}
use fuzzy_chat.Controller.Storage.Expiration.{is_expired}
use fuzzy_chat.Controller.Storage.Sessions.{
  SessionRepository, evict, kill_expired, expired_sessions,
}
use fuzzy_chat.Controller.Storage.Sessions.Shrinks.{Wrapped}
use fuzzy_chat.Controller.Storage.Sessions.Invariant.{WellFormed}

abbrev pub surviving : ℕ → Option Wrapped → Option Wrapped
surviving now none = none
surviving now (some w) = if is_expired now w then none else some w

-- Whether a key, or a uid, is on the list of what has expired.
abbrev pub has_key : String → List (String × String) → Bool
has_key k [] = false
has_key k ((key, uid) ∷ rest) = key == k || has_key k rest

abbrev pub has_uid : String → List (String × String) → Bool
has_uid u [] = false
has_uid u ((key, uid) ∷ rest) = uid == u || has_uid u rest

sessions-evict :
    (l : List (String × String)) (r : SessionRepository) (k : String)
    → Dict.get (evict l r).sessions k ≡ (if has_key k l then none else Dict.get r.sessions k)
unfolding evict
sessions-evict [] r k = refl
sessions-evict ((key, uid) ∷ rest) r k =
    sessions-evict rest _ k ∙ ground (arith, get-remove r.sessions key k)

pub clients-evict :
    (l : List (String × String)) (r : SessionRepository) (u : String)
    → Dict.get (evict l r).clients u ≡ (if has_uid u l then none else Dict.get r.clients u)
unfolding evict
clients-evict [] r u = refl
clients-evict ((key, uid) ∷ rest) r u =
    clients-evict rest _ u ∙ ground (arith, get-remove r.clients uid u)

pub proxies-evict :
    (l : List (String × String)) (r : SessionRepository) (u : String)
    → Dict.get (evict l r).proxies u ≡ (if has_uid u l then none else Dict.get r.proxies u)
unfolding evict
proxies-evict [] r u = refl
proxies-evict ((key, uid) ∷ rest) r u =
    proxies-evict rest _ u ∙ ground (arith, get-remove r.proxies uid u)

pub controllers-evict :
    (l : List (String × String)) (r : SessionRepository) (u : String)
    → Dict.get (evict l r).controllers u ≡ (if has_uid u l then none else Dict.get r.controllers u)
unfolding evict
controllers-evict [] r u = refl
controllers-evict ((key, uid) ∷ rest) r u =
    controllers-evict rest _ u ∙ ground (arith, get-remove r.controllers uid u)

-- An expired entry under that access key.
expired_entry :
    (now : ℕ) (k : String) (l : List (String × Wrapped))
    → has_key k (expired_sessions now l) ≡ true
    → (key : String) × (w : Wrapped) × In (key, w) l
      × (w.value.access_key ≡ k)
      × (is_expired now w ≡ true)
unfolding expired_sessions
expired_entry now k [] h = cc
expired_entry now k ((key, w) ∷ rest) h = elim (Bool-cases (is_expired now w)) [
  | inr live ↦
      let (j, v, m, p, q) = expired_entry now k rest (ground arith) in (j, v, there m, p, q)
  | inl dead ↦ elim (Bool-cases (w.value.access_key == k)) [
    | inl hit ↦ (key, w, here refl, (eq_iff w.value.access_key k).0 hit, dead)
    | inr miss ↦
        let (j, v, m, p, q) = expired_entry now k rest (ground arith) in (j, v, there m, p, q)
  ]
]

has_key-expired :
    (now : ℕ) (key : String) (w : Wrapped) (l : List (String × Wrapped))
    → In (key, w) l
    → is_expired now w ≡ true
    → has_key w.value.access_key (expired_sessions now l) ≡ true
unfolding expired_sessions
has_key-expired now key w [] m h = elim m [ ]
has_key-expired now key w ((j, v) ∷ rest) (here e) h =
    ground (arith, eq_iff v.value.access_key w.value.access_key)
has_key-expired now key w ((j, v) ∷ rest) (there m) h =
    ground (arith, has_key-expired now key w rest m h)

module _ (now : ℕ) {r : SessionRepository} (h : WellFormed r) where
  abbrev marked : List (String × String)
  marked = expired_sessions now (Dict.entries r.sessions)

  -- A marked key has an expired session.
  marked_expired :
      (k : String)
      → has_key k marked ≡ true
      → (w : Wrapped) × (Dict.get r.sessions k ≡ some w) × (is_expired now w ≡ true)
  marked_expired k m =
      let (key, w, e, a, x) = expired_entry now k (Dict.entries r.sessions) m in
      let g : Dict.get r.sessions key ≡ some w = get_of_entry r.sessions key w e in
      (w, rw (sym (h.keyed key w g).0 ∙ a) at g, x)

  expired_marked :
      (k : String) (w : Wrapped)
      → Dict.get r.sessions k ≡ some w
      → is_expired now w ≡ true
      → has_key k marked ≡ true
  expired_marked k w e x =
      rw (h.keyed k w e).0 at
        (has_key-expired now k w (Dict.entries r.sessions) (entry_of_get r.sessions k w e) x)

  -- After a round on a well-formed repository, exactly the sessions that had not expired are left,
  -- unchanged.
  pub sessions-kill_expired :
      (k : String)
      → Dict.get (kill_expired now r).sessions k ≡ surviving now (Dict.get r.sessions k)
  unfolding kill_expired
  sessions-kill_expired k = sessions-evict marked r k ∙ elim (Bool-cases (has_key k marked)) [
    | inl m ↦ let (w, e, x) = marked_expired k m in rw (m, e) (ground arith)
    | inr m ↦ elim (Option-cases (Dict.get r.sessions k)) [
      | inl e ↦ rw (m, e)
      | inr (w, e) ↦ rw (m, e) (ground (arith, expired_marked k w e))
    ]
  ]
