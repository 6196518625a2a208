-- ===== src/Controller/Redis/Sessions/Orphans.antt =====
-- Index entries that have lost their session, and uids that have none.
use fuzzy_chat.Prelude.{
  String, none, some, List, [], ◌∷◌, ok, panic, ◌≡◌, arith, refl, ap, sym, ◌∙◌, In, Option-cases,
  inl, inr, In-cases,
}
use fuzzy_chat.Crosscutting.Component.{Component}
use fuzzy_chat.Controller.Models.{SessionInfo}
use fuzzy_chat.Controller.Redis.{Redis, Json, plain}
use fuzzy_chat.Controller.Redis.Laws.{IsRedis}
use fuzzy_chat.Controller.Redis.Replies.{unwrap_some, unwrap_no_text}
use fuzzy_chat.Controller.Redis.Sessions.{
  get_proxies, get_client, other_sessions, get_session_key, get_member_session_key,
}

module _ {R : Type 0} (redis : Redis R) (laws : IsRedis redis) (json : Json SessionInfo) where
  other_sessions-orphan :
      (access_key entry key : String) (s : R)
      → laws.text s entry ≡ some key
      → laws.text s (get_session_key key) ≡ none
      → (entries : List String) → In entry entries
      → (other_sessions redis json access_key entries s).0 ≡ panic
  unfolding other_sessions
  other_sessions-orphan access_key entry key s h g [] m = elim m [ ]
  other_sessions-orphan access_key entry key s h g (e ∷ entries) m = elim (In-cases m) [
    | inl p ↦
        let first =
          unwrap_some plain (redis.get e) s s key refl
            (laws.get_text e key s (ap (laws.text s) (sym p) ∙ h)) in
        let second =
          unwrap_no_text json (redis.get (get_session_key key)) s
            (laws.get_other (get_session_key key) s g) in
        ground (arith, first, second)
    | inr n ↦
        let rest = other_sessions-orphan access_key entry key s h g entries n in
        elim (Option-cases (laws.text s e)) [
          | inl f ↦ ground (arith, unwrap_no_text plain (redis.get e) s (laws.get_other e s f))
          | inr (k, f) ↦
              let first = laws.get_text e k s f in
              let key = get_session_key k in
              elim (Option-cases (laws.text s key)) [
                | inl d ↦
                    let second = unwrap_no_text json (redis.get key) s (laws.get_other key s d) in
                    ground (arith, first, second)
                | inr (text, d) ↦ elim (Option-cases (json.from_str text)) [
                  | inl j ↦ ground (arith, first, laws.get_text key text s d, j)
                  | inr (v, j) ↦ ground (arith, first, laws.get_text key text s d, j, rest)
                ]
              ]
        ]
  ]

  -- Where a proxy's index entry is left, its session key holds no text, as after a removal, and the
  -- scan lists the entry, a request for the proxies panics, whoever asks.
  pub get_proxies-orphan :
      (access_key entry key : String) (entries : List String) (s : R)
      → redis.scan_match (get_member_session_key Component.proxy "*") s ≡ (ok entries, s)
      → In entry entries
      → laws.text s entry ≡ some key
      → laws.text s (get_session_key key) ≡ none
      → (get_proxies redis json access_key s).0 ≡ panic
  unfolding get_proxies
  get_proxies-orphan access_key entry key entries s scanned m h g =
      ground (arith, scanned, other_sessions-orphan access_key entry key s h g entries m)

  -- A request for a client whose index key holds no text panics.
  pub get_client-unknown :
      (uid : String) (s : R)
      → laws.text s (get_member_session_key Component.client uid) ≡ none
      → get_client redis json uid s ≡ (panic, s)
  unfolding get_client
  get_client-unknown uid s h =
      let entry = get_member_session_key Component.client uid in
      let reply = unwrap_no_text plain (redis.get entry) s (laws.get_other entry s h) in
      ground (arith, reply)
