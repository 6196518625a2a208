-- ===== src/Controller/Redis/Sessions/Reads.antt =====
-- What is read after a session has been set.
use Prim.Native.String as Text
use fuzzy_chat.Prelude.{String, none, some, ok, ◌≡◌, refl, arith, false, ◌∙◌, ◌==◌, eq_refl}
use fuzzy_chat.Crosscutting.Component.{Component, from_u8}
use fuzzy_chat.Controller.Models.{SessionInfo}
use fuzzy_chat.Controller.Redis.{Redis, Json, plain}
use fuzzy_chat.Controller.Redis.Laws.{IsRedis, ReadsBack}
use fuzzy_chat.Controller.Redis.Keys.{begins_ne}
use fuzzy_chat.Controller.Redis.Replies.{read_some, read_nil, unwrap_some}
use fuzzy_chat.Controller.Redis.Sessions.{
  set_session, get_session, get_client, remove_session, get_session_key, get_member_session_key,
  sessions_expiration_secs, renew_index,
}

module _ {R : Type 0} (redis : Redis R) (laws : IsRedis redis) (json : Json SessionInfo) where
  -- A session key is no index key.
  keys_differ :
      (c : Component) (uid key : String)
      → (get_session_key key == get_member_session_key c uid) ≡ false
  keys_differ Component.controller uid key =
      begins_ne "s" "c" "s" "trl_ss" (Text.◌++◌ ":" key) (Text.◌++◌ ":" uid) refl
  keys_differ Component.proxy uid key =
      begins_ne "s" "p" "s" "_ss" (Text.◌++◌ ":" key) (Text.◌++◌ ":" uid) refl
  keys_differ Component.client uid key =
      begins_ne "s" "c" "s" "_ss" (Text.◌++◌ ":" key) (Text.◌++◌ ":" uid) refl

  module _ (i : SessionInfo) (c : Component) (known : from_u8 {E = String} i.component_type ≡ ok c)
      (back : ReadsBack json i) where
    -- A server that holds the session and its index entry.
    abbrev pub Holds : R → Type 0
    Holds q =
        (laws.text q (get_session_key i.access_key) ≡ some (json.to_string i))
        × (laws.text q (get_member_session_key c i.uid) ≡ some i.access_key)

    set_session-Holds : (s : R) → (q : R) × (set_session redis json i s ≡ (ok tt, q)) × Holds q
    unfolding set_session
    set_session-Holds s =
        let entry = get_member_session_key c i.uid in
        let key = get_session_key i.access_key in
        let (a, e, texts, _) = laws.set_ex_text entry i.access_key sessions_expiration_secs s in
        let (b, f, texts', _) =
          laws.set_ex_text key (json.to_string i) sessions_expiration_secs a in
        let pipe = laws.atomic_cons _ _ s a e ∙ laws.atomic_cons _ _ a b f ∙ laws.atomic_nil b in
        (
          b,
          ground (arith, known, pipe),
          (
            texts' key ∙ ground (arith, eq_refl key),
            texts' entry
                ∙ ground (arith, keys_differ c i.uid i.access_key, texts entry, eq_refl entry),
          ),
        )

    get_session-Holds :
        (s : R)
        → Holds s
        → (q : R) × (get_session redis json i.access_key s ≡ (ok (some i), q)) × Holds q
    unfolding get_session renew_index
    get_session-Holds s (h, g) =
        let entry = get_member_session_key c i.uid in
        let key = get_session_key i.access_key in
        let (a, e, texts, _) =
          laws.get_ex_text key (json.to_string i) sessions_expiration_secs s h in
        let (b, f, texts', _) = laws.expire_text entry sessions_expiration_secs a in
        let reply = read_some json (redis.get_ex key sessions_expiration_secs) s a i back e in
        (
          b,
          ground (arith, reply, known, f),
          (texts' key ∙ texts key ∙ h, texts' entry ∙ texts entry ∙ g),
        )

    -- The index entry is left without a session.
    remove_session-Holds :
        (s : R)
        → Holds s
        → (q : R) × (remove_session redis json i.access_key s ≡ (ok tt, q))
          × (laws.text q (get_session_key i.access_key) ≡ none)
          × ((f : String) → laws.field q (get_session_key i.access_key) f ≡ none)
          × (laws.text q (get_member_session_key c i.uid) ≡ some i.access_key)
    unfolding remove_session
    remove_session-Holds s (h, g) =
        let entry = get_member_session_key c i.uid in
        let key = get_session_key i.access_key in
        let (q, e, texts, fields) = laws.del_text key s in
        (
          q,
          ground (arith, e),
          texts key ∙ ground (arith, eq_refl key),
          λ f. fields key f ∙ ground (arith, eq_refl key),
          texts entry ∙ ground (arith, keys_differ c i.uid i.access_key, g),
        )

    gone :
        (s : R)
        → laws.text s (get_session_key i.access_key) ≡ none
        → ((f : String) → laws.field s (get_session_key i.access_key) f ≡ none)
        → get_session redis json i.access_key s ≡ (ok none, s)
    unfolding get_session renew_index
    gone s h g =
        let key = get_session_key i.access_key in
        let reply =
          read_nil json (redis.get_ex key sessions_expiration_secs) s s
            (laws.get_ex_nil key sessions_expiration_secs s h g) in
        ground (arith, reply)

  -- A client's uid leads to its session.
  get_client-Holds :
      (i : SessionInfo) (known : from_u8 {E = String} i.component_type ≡ ok Component.client)
      (back : ReadsBack json i) (s : R)
      → Holds i Component.client known back s
      → get_client redis json i.uid s ≡ (ok (some i), s)
  unfolding get_client
  get_client-Holds i known back s (h, g) =
      let entry = get_member_session_key Component.client i.uid in
      let key = get_session_key i.access_key in
      let first =
        unwrap_some plain (redis.get entry) s s i.access_key refl
          (laws.get_text entry i.access_key s g) in
      let second =
        read_some json (redis.get key) s s i back (laws.get_text key (json.to_string i) s h) in
      ground (arith, first, second)

  -- A session of a known component type, which its JSON gives back, is found once set, and found
  -- again, by its access key; a removal succeeds, and then it is not.
  pub set_get_remove :
      (i : SessionInfo) (c : Component)
      → from_u8 {E = String} i.component_type ≡ ok c
      → ReadsBack json i
      → (s : R)
      → (a : R) × (set_session redis json i s ≡ (ok tt, a))
        × (b : R) × (get_session redis json i.access_key a ≡ (ok (some i), b))
        × (d : R) × (get_session redis json i.access_key b ≡ (ok (some i), d))
        × (e : R) × (remove_session redis json i.access_key d ≡ (ok tt, e))
        × (get_session redis json i.access_key e ≡ (ok none, e))
  set_get_remove i c known back s =
      let (a, set, h) = set_session-Holds i c known back s in
      let (b, got, g) = get_session-Holds i c known back a h in
      let (d, again, k) = get_session-Holds i c known back b g in
      let (e, removed, missing, no_hash, _) = remove_session-Holds i c known back d k in
      (a, set, b, got, d, again, e, removed, gone i c known back e missing no_hash)

  -- A client's session, which its JSON gives back, is found by the client's uid once set.
  pub set_get_client :
      (i : SessionInfo)
      → from_u8 {E = String} i.component_type ≡ ok Component.client
      → ReadsBack json i
      → (s : R)
      → (a : R) × (set_session redis json i s ≡ (ok tt, a))
        × (get_client redis json i.uid a ≡ (ok (some i), a))
  set_get_client i known back s =
      let (a, set, h) = set_session-Holds i Component.client known back s in
      (a, set, get_client-Holds i known back a h)
