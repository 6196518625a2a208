-- ===== src/Examples/Redis.antt =====
-- A server with two functions for its keys, and the theorems on it.
use fuzzy_chat.Prelude.{
  String, Option, none, some, List, [], ◌∷◌, Exec, ok, err, panic, ◌≡◌, ◌≢◌, refl, ◌==◌, ◌&&◌,
  if◌then◌else◌, here, arith, eq_iff, false, eqb, ap, length, ◌∙◌, inl, inr, Bool-cases,
}
use Prim.Native.Char.{Char, code}
use Prim.Native.String as Text
use fuzzy_chat.Prelude.Dict
use fuzzy_chat.Prelude.Dict.{Dict}
use fuzzy_chat.Prelude.Texts.Laws.{List-cases}
use fuzzy_chat.Crosscutting.Component.{Component, from_u8}
use fuzzy_chat.Controller.Models.{SessionInfo, Conversation, Route, Member}
use fuzzy_chat.Controller.Storage.Members as InMemory
use fuzzy_chat.Controller.Redis.{Redis, Json, Write, set_ex, del, expire, hset, hdel}
use fuzzy_chat.Controller.Redis.Laws.{IsRedis, GivesNoText}
use fuzzy_chat.Controller.Redis.Sessions.{
  set_session, get_session, remove_session, get_client, get_proxies,
}
use fuzzy_chat.Controller.Redis.Sessions.Reads.{set_get_remove}
use fuzzy_chat.Controller.Redis.Sessions.Orphans.{get_proxies-orphan, get_client-unknown}
use fuzzy_chat.Controller.Redis.Routes.{set_route, get_route, get_conversation, remove_route}
use fuzzy_chat.Controller.Redis.Routes.Reads.{
  set_get_route, set_route-unknown, remove_route_keeps, with_route,
}
use fuzzy_chat.Controller.Redis.Members.{set_member, get_member}
use fuzzy_chat.Controller.Redis.Members.Reads.{Keeps, members_refine}
use fuzzy_chat.Examples.States.{alice, fresh_talk, hop}

record Server : Type 0 where
  texts : String → Option String
  hashes : String → Dict String

abbrev wrong_type : String
wrong_type = "WRONGTYPE"

abbrev put : {A : Type 0} → (String → A) → String → A → String → A
put f k a j = if k == j then a else f j

abbrev without_hash : (String → Dict String) → String → String → Dict String
without_hash h k = put h k Dict.empty

abbrev write : Write → Exec Server String Unit
write (set_ex k v n) s =
    (ok tt, record { texts = put s.texts k (some v); hashes = without_hash s.hashes k })
write (del k) s = (ok tt, record { texts = put s.texts k none; hashes = without_hash s.hashes k })
write (expire k n) s = (ok tt, s)
write (hset k f v) s = elim (s.texts k) [
  | some text ↦ (err wrong_type, s)
  | none ↦ (ok tt, record s { hashes = put s.hashes k (Dict.insert (s.hashes k) f v) })
]
write (hdel k f) s = elim (s.texts k) [
  | some text ↦ (err wrong_type, s)
  | none ↦ (ok tt, record s { hashes = put s.hashes k (Dict.remove (s.hashes k) f) })
]

abbrev atomic : List Write → Exec Server String Unit
atomic [] s = (ok tt, s)
atomic (c ∷ cs) s = elim (write c s).0 [
  | ok r ↦ atomic cs (write c s).1
  | err e ↦ (err e, (write c s).1)
  | panic ↦ (panic, (write c s).1)
]

-- The text at a key; a hash is refused.
unfoldable get : String → Exec Server String (Option String)
get k s = elim (s.texts k) [
  | some text ↦ (ok (some text), s)
  | none ↦ elim (Dict.entries (s.hashes k)) [ [] ↦ (ok none, s) | _ ∷ _ ↦ (err wrong_type, s) ]
]

-- The keys that a scan lists are given.
abbrev server : List String → Redis Server
server keys = record {
  write = write;
  atomic = atomic;
  get = get;
  get_ex = λ k n. get k;
  hget = λ k f s. elim (s.texts k) [
    | some text ↦ (err wrong_type, s)
    | none ↦ (ok (Dict.get (s.hashes k) f), s)
  ];
  scan_match = λ pattern s. (ok keys, s);
}

get-text : (k v : String) (s : Server) → s.texts k ≡ some v → get k s ≡ (ok (some v), s)
unfolding get
get-text k v s e = ground (arith, e)

get-nil :
    (k : String) (s : Server)
    → s.texts k ≡ none
    → ((f : String) → Dict.get (s.hashes k) f ≡ none)
    → get k s ≡ (ok none, s)
unfolding get
get-nil k s e h = elim (List-cases (Dict.entries (s.hashes k))) [
  | inl g ↦ ground (arith, e, g)
  | inr ((f, v), rest, g) ↦ cc (h f, Dict.get_of_entry (s.hashes k) f v (rw g (here refl)))
]

get-GivesNoText : (k : String) (s : Server) → s.texts k ≡ none → GivesNoText (get k) s
unfolding get
get-GivesNoText k s e = elim (List-cases (Dict.entries (s.hashes k))) [
  | inl g ↦ inl (ground (arith, e, g))
  | inr (f, rest, g) ↦ inr (wrong_type, ground (arith, e, g))
]

-- A field of one hash that has changed.
get-put :
    (h : String → Dict String) (k j g : String) (d : Dict String)
    → Dict.get (put h k d j) g ≡ (if k == j then Dict.get d g else Dict.get (h j) g)
get-put h k j g d = elim (Bool-cases (k == j)) [
  | inl e ↦ ground (arith, e)
  | inr e ↦ ground (arith, e)
]

get-without_hash :
    (h : String → Dict String) (k j g : String)
    → Dict.get (without_hash h k j) g ≡ (if k == j then none else Dict.get (h j) g)
get-without_hash h k j g = get-put h k j g Dict.empty ∙ rw (Dict.get-empty {V = String} g)

get-put-insert :
    (h : String → Dict String) (k f v j g : String)
    → Dict.get (put h k (Dict.insert (h k) f v) j) g
      ≡ (if k == j && f == g then some v else Dict.get (h j) g)
get-put-insert h k f v j g = get-put h k j g _ ∙ elim (Bool-cases (k == j)) [
  | inl e ↦ ground (arith, e, ap h ((eq_iff k j).0 e), Dict.get-insert (h k) f g v)
  | inr e ↦ ground (arith, e)
]

get-put-remove :
    (h : String → Dict String) (k f j g : String)
    → Dict.get (put h k (Dict.remove (h k) f) j) g
      ≡ (if k == j && f == g then none else Dict.get (h j) g)
get-put-remove h k f j g = get-put h k j g _ ∙ elim (Bool-cases (k == j)) [
  | inl e ↦ ground (arith, e, ap h ((eq_iff k j).0 e), Dict.get-remove (h k) f g)
  | inr e ↦ ground (arith, e)
]

server-IsRedis : (keys : List String) → IsRedis (server keys)
server-IsRedis keys = record {
  text = λ s. s.texts;
  field = λ s k. Dict.get (s.hashes k);
  get_text = get-text;
  get_nil = get-nil;
  get_other = get-GivesNoText;
  get_ex_text = λ k v n s e. (s, get-text k v s e, λ j. refl, λ j f. refl);
  get_ex_nil = λ k n. get-nil k;
  set_ex_text = λ k v n s. (_, refl, λ j. refl, λ j f. get-without_hash s.hashes k j f);
  del_text = λ k s. (_, refl, λ j. refl, λ j f. get-without_hash s.hashes k j f);
  expire_text = λ k n s. (s, refl, λ j. refl, λ j f. refl);
  hget_field = λ k f s e. ground (arith, e);
  hset_field = λ k f v s e. (
    record s { hashes = put s.hashes k (Dict.insert (s.hashes k) f v) },
    ground (arith, e),
    λ j. refl,
    get-put-insert s.hashes k f v,
  );
  hdel_field = λ k f s e. (
    record s { hashes = put s.hashes k (Dict.remove (s.hashes k) f) },
    ground (arith, e),
    λ j. refl,
    get-put-remove s.hashes k f,
  );
  atomic_nil = λ s. refl;
  atomic_cons = λ c cs s q e. ground (arith, e);
}

abbrev empty_server : Server
empty_server = record { texts = λ j. none; hashes = λ j. Dict.empty }

abbrev session_json : Json SessionInfo
session_json = record { to_string = λ s. s.uid; from_str = λ text. some alice }

set_get_remove_example :
    (a : Server) × (set_session (server []) session_json alice empty_server ≡ (ok tt, a))
    × (b : Server) × (get_session (server []) session_json "ka" a ≡ (ok (some alice), b))
    × (d : Server) × (get_session (server []) session_json "ka" b ≡ (ok (some alice), d))
    × (e : Server) × (remove_session (server []) session_json "ka" d ≡ (ok tt, e))
    × (get_session (server []) session_json "ka" e ≡ (ok none, e))
unfolding from_u8 server-IsRedis
set_get_remove_example =
    set_get_remove (server []) (server-IsRedis []) session_json alice Component.client refl refl
      empty_server

-- A proxy that has logged out.
abbrev logged_out : Server
logged_out = record empty_server { texts = λ j. if "p_ss:relay" == j then some "kp" else none }

get_proxies-orphan_example :
    (get_proxies (server ("p_ss:relay" ∷ [])) session_json "ka" logged_out).0 ≡ panic
unfolding server-IsRedis
get_proxies-orphan_example =
    get_proxies-orphan (server ("p_ss:relay" ∷ [])) (server-IsRedis ("p_ss:relay" ∷ []))
      session_json "ka" "p_ss:relay" "kp" ("p_ss:relay" ∷ []) logged_out refl (here refl) refl refl

unknown_client : get_client (server []) session_json "bob" empty_server ≡ (panic, empty_server)
unfolding server-IsRedis
unknown_client =
    get_client-unknown (server []) (server-IsRedis []) session_json "bob" empty_server refl

-- The texts tell a conversation with one route from one without.
abbrev conversation_json : Json Conversation
conversation_json = record {
  to_string = λ c. if eqb (length c.routes) 0 then "fresh" else "next";
  from_str = λ text.
      if text == "fresh" then some fresh_talk else some (with_route fresh_talk (hop "n1" false));
}

abbrev route_json : Json Route
route_json = record { to_string = λ r. r.nonce; from_str = λ text. some (hop "n1" false) }

abbrev talking : Server
talking = record empty_server { texts = λ j. if "cs:c0" == j then some "fresh" else none }

set_get_route_example :
    (q : Server) × (set_route (server []) conversation_json route_json "c0" (hop "n1" false) talking
      ≡ (ok (some "n1"), q))
    × (get_route (server []) conversation_json route_json "c0" "n1" q
        ≡ (ok (some (hop "n1" false)), q))
    × (get_conversation (server []) conversation_json route_json "c0" q
        ≡ (ok (some (with_route fresh_talk (hop "n1" false))), q))
unfolding server-IsRedis
set_get_route_example =
    set_get_route (server []) (server-IsRedis []) conversation_json route_json "c0" (hop "n1" false)
      fresh_talk talking refl refl refl refl refl

unknown_conversation :
    set_route (server []) conversation_json route_json "c0" (hop "n1" false) empty_server
    ≡ (panic, empty_server)
unfolding server-IsRedis
unknown_conversation =
    set_route-unknown (server []) (server-IsRedis []) conversation_json route_json "c0"
      (hop "n1" false) empty_server refl (λ f. Dict.get-empty {V = String} f)

other_id : ◌≢◌ {A = String} "c0" "n1"
other_id e = ground (arith, e, eq_iff "c0" "n1")

abbrev routed : Server
routed = record empty_server {
  hashes = λ j. if "rs:c0" == j then Dict.insert Dict.empty "n1" "n1" else Dict.empty;
}

remove_route_keeps_example :
    (q : Server) × (remove_route (server []) conversation_json route_json "n1" routed ≡ (ok tt, q))
    × ((get_route (server []) conversation_json route_json "c0" "n1" q).0
        ≡ (get_route (server []) conversation_json route_json "c0" "n1" routed).0)
unfolding server-IsRedis
remove_route_keeps_example =
    remove_route_keeps (server []) (server-IsRedis []) conversation_json route_json "c0" "n1" routed
      other_id refl refl

still_there :
    (get_route
      (server [])
      conversation_json
      route_json
      "c0"
      "n1"
      (remove_route (server []) conversation_json route_json "n1" routed).1).0
    ≡ ok (some (hop "n1" false))
unfolding get_route remove_route Dict.get Dict.insert Dict.empty Dict.remove
still_there = refl

-- A member in one text: each character of the uid after a "1", then a "0" and the password.
abbrev encode : String → String → String
encode Text.[] pwd = Text.◌∷◌ "0" pwd
encode (Text.◌∷◌ c uid) pwd = Text.◌∷◌ "1" (Text.◌∷◌ c (encode uid pwd))

abbrev with_char : Char → Option Member → Option Member
with_char c none = none
with_char c (some m) = some (record m { uid = Text.◌∷◌ c m.uid })

abbrev decode : String → Option Member
decode Text.[] = none
decode (Text.◌∷◌ x Text.[]) = some (record { uid = ""; pwd = "" })
decode (Text.◌∷◌ x (Text.◌∷◌ c rest)) =
    let more = decode rest in
    if eqb (code x) b'0'
    then some (record { uid = ""; pwd = Text.◌∷◌ c rest })
    else with_char c more

abbrev member_json : Json Member
member_json = record { to_string = λ m. encode m.uid m.pwd; from_str = decode }

decode-encode :
    (uid pwd : String) → decode (encode uid pwd) ≡ some (record { uid = uid; pwd = pwd })
decode-encode Text.[] Text.[] = refl
decode-encode Text.[] (Text.◌∷◌ c rest) = refl
decode-encode (Text.◌∷◌ c uid) pwd = ap (with_char c) (decode-encode uid pwd)

no_members : Keeps (server-IsRedis []) member_json Dict.empty empty_server
unfolding InMemory.get_member server-IsRedis Dict.get Dict.empty
no_members = record { is_hash = refl; fields = λ uid. refl }

members_refine_example :
    ((m : Member)
      → (q : Server) × (set_member (server []) member_json m empty_server ≡ (ok tt, q))
        × Keeps (server-IsRedis []) member_json (InMemory.set_member m Dict.empty) q)
    × ((uid : String)
        → get_member (server []) member_json uid empty_server
          ≡ (ok (InMemory.get_member uid Dict.empty), empty_server))
members_refine_example =
    members_refine (server []) (server-IsRedis []) member_json Dict.empty empty_server
      (λ m. decode-encode m.uid m.pwd) no_members
