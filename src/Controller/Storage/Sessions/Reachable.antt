-- ===== src/Controller/Storage/Sessions/Reachable.antt =====
-- Which uids a round of `kill_expired_sessions` takes out of the indexes.
use fuzzy_chat.Prelude.{
  ℕ, String, ◌≡◌, refl, true, false, none, some, List, [], ◌∷◌, arith, Bool-cases, Option-cases,
  ◌==◌, inl, inr, eq_iff, In, here, there,
}
use fuzzy_chat.Prelude.Dict
use fuzzy_chat.Prelude.Dict.{get_of_entry, entry_of_get}
use fuzzy_chat.Controller.Storage.Expiration.{is_expired}
use fuzzy_chat.Controller.Storage.Sessions.{
  SessionRepository, get_client, kill_expired, expired_sessions,
}
use fuzzy_chat.Controller.Storage.Sessions.Shrinks.{Wrapped}
use fuzzy_chat.Controller.Storage.Sessions.Invariant.{WellFormed}
use fuzzy_chat.Controller.Storage.Sessions.Expiry.{
  has_uid, clients-evict, controllers-evict, proxies-evict, sessions-kill_expired,
}

has_uid-expired :
    (now : ℕ) (key : String) (w : Wrapped) (l : List (String × Wrapped))
    → In (key, w) l
    → is_expired now w ≡ true
    → has_uid w.value.uid (expired_sessions now l) ≡ true
unfolding expired_sessions
has_uid-expired now key w [] m h = elim m [ ]
has_uid-expired now key w ((j, v) ∷ rest) (here e) h =
    ground (arith, eq_iff v.value.uid w.value.uid)
has_uid-expired now key w ((j, v) ∷ rest) (there m) h =
    ground (arith, has_uid-expired now key w rest m h)

-- An expired entry of that uid.
expired_of_uid :
    (now : ℕ) (u : String) (l : List (String × Wrapped))
    → has_uid u (expired_sessions now l) ≡ true
    → (key : String) × (w : Wrapped) × In (key, w) l × (w.value.uid ≡ u) × (is_expired now w ≡ true)
unfolding expired_sessions
expired_of_uid now u [] h = cc
expired_of_uid now u ((key, w) ∷ rest) h = elim (Bool-cases (is_expired now w)) [
  | inr live ↦
      let (j, v, m, p, q) = expired_of_uid now u rest (ground arith) in (j, v, there m, p, q)
  | inl dead ↦ elim (Bool-cases (w.value.uid == u)) [
    | inl hit ↦ (key, w, here refl, (eq_iff w.value.uid u).0 hit, dead)
    | inr miss ↦
        let (j, v, m, p, q) = expired_of_uid now u rest (ground arith) in (j, v, there m, p, q)
  ]
]

-- A uid none of whose sessions has expired.
abbrev pub NoneExpired : ℕ → String → SessionRepository → Type 0
NoneExpired now u r =
    (k : String) (w : Wrapped)
    → Dict.get r.sessions k ≡ some w
    → w.value.uid ≡ u
    → is_expired now w ≡ false

not_listed :
    (now : ℕ) (u : String) (r : SessionRepository)
    → NoneExpired now u r
    → has_uid u (expired_sessions now (Dict.entries r.sessions)) ≡ false
not_listed now u r live =
    elim (Bool-cases (has_uid u (expired_sessions now (Dict.entries r.sessions)))) [
      | inr m ↦ m
      | inl m ↦
          let (k, w, e, p, x) = expired_of_uid now u (Dict.entries r.sessions) m in
          let f : is_expired now w ≡ false = live k w (get_of_entry r.sessions k w e) p in cc
    ]

clients-kill_expired :
    (now : ℕ) (u : String) (r : SessionRepository)
    → NoneExpired now u r
    → Dict.get (kill_expired now r).clients u ≡ Dict.get r.clients u
unfolding kill_expired
clients-kill_expired now u r live = ground (
  arith,
  clients-evict (expired_sessions now (Dict.entries r.sessions)) r u,
  not_listed now u r live,
)

-- While no session of a uid has expired, a round on a well-formed repository leaves what `get_client`
-- finds for it.
pub get_client-kill_expired :
    (now : ℕ) (u : String) {r : SessionRepository}
    → WellFormed r
    → NoneExpired now u r
    → get_client u (kill_expired now r) ≡ get_client u r
unfolding get_client
get_client-kill_expired now u {r} h live = elim (Option-cases (Dict.get r.clients u)) [
  | inl e ↦ ground (arith, clients-kill_expired now u r live)
  | inr (k, e) ↦ elim (Option-cases (Dict.get r.sessions k)) [
    | inl f ↦ ground (arith, clients-kill_expired now u r live, sessions-kill_expired now h k)
    | inr (w, f) ↦ ground (
      arith,
      clients-kill_expired now u r live,
      sessions-kill_expired now h k,
      live k w f (h.client_index u k w e f).0,
    )
  ]
]

-- Once any session of a uid has expired, a round makes `get_client` find nothing for the uid, whatever
-- live session it has by then.
pub get_client-kill_expired_stale :
    (now : ℕ) (k : String) (w : Wrapped) (r : SessionRepository)
    → Dict.get r.sessions k ≡ some w
    → is_expired now w ≡ true
    → get_client w.value.uid (kill_expired now r) ≡ none
unfolding get_client kill_expired
get_client-kill_expired_stale now k w r e x = ground (
  arith,
  clients-evict (expired_sessions now (Dict.entries r.sessions)) r w.value.uid,
  has_uid-expired now k w (Dict.entries r.sessions) (entry_of_get r.sessions k w e) x,
)

-- The same holds of the index of controllers.
pub controllers-kill_expired_stale :
    (now : ℕ) (k : String) (w : Wrapped) (r : SessionRepository)
    → Dict.get r.sessions k ≡ some w
    → is_expired now w ≡ true
    → Dict.get (kill_expired now r).controllers w.value.uid ≡ none
unfolding kill_expired
controllers-kill_expired_stale now k w r e x = ground (
  arith,
  controllers-evict (expired_sessions now (Dict.entries r.sessions)) r w.value.uid,
  has_uid-expired now k w (Dict.entries r.sessions) (entry_of_get r.sessions k w e) x,
)

-- The entry of a proxy stays in its index for as long as no session of its uid expires.
pub proxies-kill_expired :
    (now : ℕ) (u : String) (r : SessionRepository)
    → NoneExpired now u r
    → Dict.get (kill_expired now r).proxies u ≡ Dict.get r.proxies u
unfolding kill_expired
proxies-kill_expired now u r live = ground (
  arith,
  proxies-evict (expired_sessions now (Dict.entries r.sessions)) r u,
  not_listed now u r live,
)
