-- ===== src/Controller/Storage/Sessions/Lookup.antt =====
-- What the repository's look-ups find.
use fuzzy_chat.Prelude.{
  ℕ, String, ◌≡◌, ◌≢◌, refl, ap, sym, ◌∙◌, ok, false, none, some, List, [], ◌∷◌, arith, Bool-cases,
  Option-cases, ◌==◌, inl, inr, eq_iff, In, In-cases, here, there,
}
use fuzzy_chat.Prelude.Dict
use fuzzy_chat.Prelude.Dict.{get-insert_self, get_of_entry, entry_of_get}
use fuzzy_chat.Crosscutting.Component.{Component, to_u8, from_u8, from_u8-to_u8}
use fuzzy_chat.Controller.Models.{SessionInfo}
use fuzzy_chat.Controller.Storage.Expiration.{wrap}
use fuzzy_chat.Controller.Storage.Times.{sessions_expiration_time}
use fuzzy_chat.Controller.Storage.Sessions.{
  SessionRepository, index, store, set_session, get_session, get_client, get_proxies,
  other_sessions, non_empty,
}
use fuzzy_chat.Controller.Storage.Sessions.Shrinks.{Wrapped}

-- A session that `get_proxies` may give to the holder of `key`.
abbrev pub IsOtherProxy : String → SessionRepository → SessionInfo → Type 0
IsOtherProxy key r s =
    (uid : String) × (k : String) × (w : Wrapped) × (Dict.get r.proxies uid ≡ some k)
    × (k ≢ key)
    × (Dict.get r.sessions k ≡ some w)
    × (w.value ≡ s)

ruled_out : (k key : String) → (k == key) ≡ false → k ≢ key
ruled_out k key h = ground (arith, eq_iff k key)

kept : (k key : String) → k ≢ key → (k == key) ≡ false
kept k key h = ground (arith, eq_iff k key)

other_sessions_sound :
    (key : String) (r : SessionRepository) (l : List (String × String))
    → ((uid k : String) → In (uid, k) l → Dict.get r.proxies uid ≡ some k)
    → (s : SessionInfo) → In s (other_sessions key r.sessions l)
    → IsOtherProxy key r s
unfolding other_sessions
other_sessions_sound key r [] all s m = elim m [ ]
other_sessions_sound key r ((uid, k) ∷ rest) all s m =
    let recur : In s (other_sessions key r.sessions rest) → IsOtherProxy key r s =
      other_sessions_sound key r rest (λ u j n. all u j (there n)) s in
    elim (Bool-cases (k == key)) [
      | inl hit ↦ recur (rw hit at m)
      | inr miss ↦ elim (Option-cases (Dict.get r.sessions k)) [
        | inl e ↦ recur (rw (miss, e) at m)
        | inr (w, e) ↦ elim (In-cases (rw (miss, e) at m)) [
          | inl p ↦ (uid, k, w, all uid k (here refl), ruled_out k key miss, e, sym p)
          | inr n ↦ recur n
        ]
      ]
    ]

other_sessions_complete :
    (key : String) (r : SessionRepository) (uid k : String) (w : Wrapped)
    (l : List (String × String))
    → In (uid, k) l
    → k ≢ key
    → Dict.get r.sessions k ≡ some w
    → In w.value (other_sessions key r.sessions l)
unfolding other_sessions
other_sessions_complete key r uid k w [] m n e = elim m [ ]
other_sessions_complete key r uid k w ((u, j) ∷ rest) (here p) n e =
    let q : k ≡ j = ap (λ (t : String × String). t.1) p in rw (← q, kept k key n, e) (here refl)
other_sessions_complete key r uid k w ((u, j) ∷ rest) (there m) n e =
    let more = other_sessions_complete key r uid k w rest m n e in
    elim (Bool-cases (j == key)) [
      | inl hit ↦ rw hit more
      | inr miss ↦ elim (Option-cases (Dict.get r.sessions j)) [
        | inl f ↦ rw (miss, f) more
        | inr (v, f) ↦ rw (miss, f) (there more)
      ]
    ]

non_empty_eq {ℓ} : {A : Type ℓ} (l xs : List A) → non_empty l ≡ some xs → (l ≡ xs) × (xs ≢ [])
non_empty_eq [] xs e = cc
non_empty_eq (x ∷ l) xs e = ground arith

-- When `get_proxies` gives a list, a session is on it if and only if it is stored, indexed as a proxy
-- and under another access key than the asker's.
pub get_proxies-exact :
    (key : String) (r : SessionRepository) (xs : List SessionInfo)
    → get_proxies key r ≡ some xs
    → (s : SessionInfo) → (In s xs → IsOtherProxy key r s) × (IsOtherProxy key r s → In s xs)
unfolding get_proxies
get_proxies-exact key r xs e s =
    let (p, _) = non_empty_eq _ xs e in
    (
      λ m. other_sessions_sound key r _ (λ u k n. get_of_entry r.proxies u k n) s (rw (sym p) at m),
      λ (u, k, w, f, n, g, q).
          rw (← q, ← p) (other_sessions_complete key r u k w _ (entry_of_get r.proxies u k f) n g),
    )

pub get_proxies-ne-nil :
    (key : String) (r : SessionRepository) (xs : List SessionInfo)
    → get_proxies key r ≡ some xs
    → xs ≢ []
unfolding get_proxies
get_proxies-ne-nil key r xs e = (non_empty_eq _ xs e).1

-- `get_proxies` gives nothing only where there is no such session.
pub get_proxies-none :
    (key : String) (r : SessionRepository) (s : SessionInfo)
    → get_proxies key r ≡ none
    → ¬ IsOtherProxy key r s
unfolding get_proxies
get_proxies-none key r s e (u, k, w, f, n, g, q) =
    absurd_member (other_sessions_complete key r u k w _ (entry_of_get r.proxies u k f) n g)
      (empty_list e)
  where
    empty_list : {l : List SessionInfo} → non_empty l ≡ none → l ≡ []
    empty_list {l = []} e = refl
    empty_list {l = x ∷ l} e = cc

    absurd_member : {l : List SessionInfo} {x : SessionInfo} → In x l → l ≡ [] → ⊥
    absurd_member {l = []} m e = elim m [ ]
    absurd_member {l = x ∷ l} m e = cc

-- A session whose component type is a known one is indexed and stored.
pub set_session_lem :
    {E : Type 0} (now : ℕ) (c : Component) (s : SessionInfo) (r : SessionRepository)
    → s.component_type ≡ to_u8 c
    → set_session {E = E} now s r ≡ (ok tt, store now s (index c s r))
unfolding set_session from_u8
set_session_lem {E} now c s r t =
    let e : from_u8 {E = E} s.component_type ≡ ok c = ap from_u8 t ∙ from_u8-to_u8 c in
    ground (arith, e)

-- A client that has just been stored is found by its uid.
pub get_client-store :
    (now : ℕ) (s : SessionInfo) (r : SessionRepository)
    → get_client s.uid (store now s (index Component.client s r)) ≡ some s
unfolding get_client store index
get_client-store now s r = ground (
  arith,
  get-insert_self r.clients s.uid s.access_key,
  get-insert_self r.sessions s.access_key (wrap now s sessions_expiration_time),
)

-- A session that has just been stored is found by its access key, whatever its type.
pub get_session-store :
    (now later : ℕ) (s : SessionInfo) (r : SessionRepository)
    → (get_session later s.access_key (store now s r)).0 ≡ some s
unfolding get_session store
get_session-store now later s r =
    ground (arith, get-insert_self r.sessions s.access_key (wrap now s sessions_expiration_time))
