-- ===== src/Examples/Network.antt =====
-- A message over two proxies that hand it to each other.
use fuzzy_chat.Prelude.{
  ℕ, String, [], ◌∷◌, List, Option, none, some, ok, ◌≡◌, refl, arith, if◌then◌else◌, ◌==◌, eq_iff,
  Bool-cases, inl, inr, In, In-cases, ◌⊎◌, ◌≢◌, false, true, ◌∙◌, ◌++◌,
}
use fuzzy_chat.Prelude.Dict
use fuzzy_chat.Controller.Models.{SessionInfo}
use fuzzy_chat.Controller.Storage.Expiration.{wrap}
use fuzzy_chat.Controller.Storage.Sessions.{
  SessionRepository, get_client, get_proxies, other_sessions, non_empty,
}
use fuzzy_chat.Controller.Storage.Sessions.Lookup.{get_proxies-exact}
use fuzzy_chat.Client.Commander.{send_message, get_status}
use fuzzy_chat.Client.Landing.{new_message}
use fuzzy_chat.Crosscutting.Endpoint.{to_https_endpoint}
use fuzzy_chat.Prelude.Texts.{chars, collect, find, trim, is_whitespace, starts_with}
use fuzzy_chat.Client.Command.Parsing.{send_line}
use fuzzy_chat.Client.Prompt.{handle_input, read_input, again}
use Prim.Native.String as Text
use fuzzy_chat.Network.Asking.{status_told, status_of}
use fuzzy_chat.Network.Typed.{typed_delivered}
use fuzzy_chat.Network.{World, Draw, Texts, network}
use fuzzy_chat.Network.Journey.{Connected, New}
use fuzzy_chat.Network.Sessions.{Same}
use fuzzy_chat.Network.Delivery.{message_delivered}
use fuzzy_chat.Examples.States.{alice, first}
use fuzzy_chat.Examples.Routes.{first-IsChoice}

abbrev bob : SessionInfo
bob = record alice { access_key = "kb"; uid = "bob"; on_ip_address = "10.0.0.4" }

abbrev relay : SessionInfo
relay = record alice {
  access_key = "kp";
  uid = "relay";
  on_ip_address = "10.0.0.2";
  component_type = 1;
}

abbrev other : SessionInfo
other = record relay { access_key = "kq"; uid = "other"; on_ip_address = "10.0.0.3" }

abbrev logged_in : SessionRepository
logged_in = record {
  sessions =
      Dict.insert
        (Dict.insert
          (Dict.insert (Dict.insert Dict.empty "ka" (wrap 0 alice 10000)) "kb" (wrap 0 bob 10000))
          "kp" (wrap 0 relay 10000))
        "kq" (wrap 0 other 10000);
  clients = Dict.insert (Dict.insert Dict.empty "alice" "ka") "bob" "kb";
  controllers = Dict.empty;
  proxies = Dict.insert (Dict.insert Dict.empty "relay" "kp") "other" "kq";
}

abbrev everyone : World
everyone = record {
  controller = record {
    session_manager = logged_in;
    route_manager = record { routes = Dict.empty; conversations = Dict.empty };
    member_manager = Dict.empty;
  };
  channels = Dict.insert Dict.empty "https://10.0.0.1:5001" [];
}

abbrev proxies : String → Option String
proxies uri =
    if uri == "https://10.0.0.2:5001"
    then some "kp"
    else if uri == "https://10.0.0.3:5001"
    then some "kq"
    else none

-- All ports are alike, and every text is a `Uri`.
abbrev texts : Texts
texts = record {
  uris = record { to_string = λ n. "5001"; try_from = λ text. some text };
  show = λ e. e.message;
  lost = "lost";
  from_utf8_lossy = λ bytes. "hi";
  debug = λ r. r.version;
  version = "0.1.0";
}

abbrev draw : String → Draw
draw uuid = record { now = 7; conversation_uuid = "c1"; uuid = uuid; choose = first }

offers :
    (key : String)
    → get_proxies key logged_in
      ≡ non_empty (
          let more = if "kp" == key then [] else relay ∷ [] in
          if "kq" == key then more else other ∷ more)
unfolding get_proxies other_sessions Dict.get Dict.insert Dict.empty Dict.entries
offers key = refl

distinct : (a b : String) → (a == b) ≡ false → a ≢ b
distinct a b h e = ground (arith, h, e, eq_iff a b)

one_key : (key : String) → ("kp" == key) ≡ true → ("kq" == key) ≡ true → ⊥
one_key key e f = distinct "kp" "kq" refl (ground (arith, e, f, eq_iff "kp" key, eq_iff "kq" key))

one_of :
    (key : String)
    → (p : SessionInfo) × (ps : List SessionInfo) × (get_proxies key logged_in ≡ some (p ∷ ps))
      × ((q : SessionInfo) → In q (p ∷ ps) → (q ≡ relay) ⊎ (q ≡ other))
one_of key = elim (Bool-cases ("kp" == key)) [
  | inl e ↦ elim (Bool-cases ("kq" == key)) [
    | inl f ↦ elim (one_key key e f) [ ]
    | inr m ↦ (
      other,
      [],
      offers key ∙ ground (arith, e, m),
      λ q i. elim (In-cases i) [ inl g ↦ inr g | inr n ↦ elim n [ ] ],
    )
  ]
  | inr n ↦ elim (Bool-cases ("kq" == key)) [
    | inl f ↦ (
      relay,
      [],
      offers key ∙ ground (arith, n, f),
      λ q i. elim (In-cases i) [ inl g ↦ inl g | inr m ↦ elim m [ ] ],
    )
    | inr m ↦ (
      other,
      relay ∷ [],
      offers key ∙ ground (arith, n, m),
      λ q i. elim (In-cases i) [
        | inl g ↦ inr g
        | inr j ↦ elim (In-cases j) [ inl g ↦ inl g | inr k ↦ elim k [ ] ]
      ],
    )
  ]
]

named : ◌≢◌ {A = String} "alice" ""
named = distinct "alice" "" refl

connected : Connected texts proxies logged_in
unfolding Dict.get Dict.insert Dict.empty to_https_endpoint
connected = record {
  others = λ key. let (p, ps, e, _) = one_of key in (p, ps, e);
  placed = λ key q other_proxy.
      let (p, ps, e, all) = one_of key in
      elim (all q ((get_proxies-exact key logged_in (p ∷ ps) e q).1 other_proxy)) [
        | inl g ↦ (
          "https://10.0.0.2:5001",
          "kp",
          rw g (record { small = refl; address = refl }),
          refl,
          (wrap 0 relay 10000, refl),
        )
        | inr g ↦ (
          "https://10.0.0.3:5001",
          "kq",
          rw g (record { small = refl; address = refl }),
          refl,
          (wrap 0 other 10000, refl),
        )
      ];
}

draws_unused : New (draw "n1" ∷ draw "n2" ∷ draw "n3" ∷ draw "n4" ∷ []) everyone.controller
unfolding Dict.get Dict.empty
draws_unused = (
  refl,
  (distinct "n1" "n2" refl, (distinct "n1" "n3" refl, (distinct "n1" "n4" refl, tt))),
  (
    refl,
    (distinct "n2" "n3" refl, (distinct "n2" "n4" refl, tt)),
    (refl, (distinct "n3" "n4" refl, tt), (refl, tt, tt)),
  ),
)

message_delivered_example :
    (b : World) × (now : ℕ) × (send_message texts.uris
        (network texts proxies (draw "n1" ∷ draw "n2" ∷ draw "n3" ∷ draw "n4" ∷ []))
        "kb"
        (λ e. e)
        "alice"
        (104 ∷ 105 ∷ [])
        everyone
      ≡ (ok (some "Message sent"), b))
    × (b.channels
        ≡ Dict.insert everyone.channels "https://10.0.0.1:5001"
            ([] ++ new_message texts.from_utf8_lossy now "bob" "myself" (104 ∷ 105 ∷ []) ∷ []))
    × Same logged_in b.controller.session_manager
unfolding Dict.get Dict.insert Dict.empty get_client to_https_endpoint
message_delivered_example =
    message_delivered texts proxies (draw "n1") everyone "kb" "alice" (wrap 0 bob 10000) refl named
      refl connected (draw "n2" ∷ draw "n3" ∷ draw "n4" ∷ []) refl
      (first-IsChoice, (first-IsChoice, (first-IsChoice, (first-IsChoice, tt)))) draws_unused alice
      refl "https://10.0.0.1:5001" (record { small = refl; address = refl }) [] refl (λ e. e)
      (104 ∷ 105 ∷ [])

typed_delivered_example :
    (read_input (collect (send_line (chars "alice") (chars "hi" ++ "\n" ∷ [])))
      ≡ some (collect (send_line (chars "alice") (chars "hi" ++ "\n" ∷ []))))
    × (b : World) × (now : ℕ) × (handle_input texts.uris
          (network texts proxies (draw "n1" ∷ draw "n2" ∷ draw "n3" ∷ draw "n4" ∷ []))
          (λ e. e)
          (some "kb")
          (collect (send_line (chars "alice") (chars "hi" ++ "\n" ∷ [])))
          everyone
        ≡ (ok again, b))
    × (b.channels
        ≡ Dict.insert everyone.channels "https://10.0.0.1:5001"
            ([] ++ record { sender = "bob"; recipient = "myself"; content = "hi"; at = now } ∷ []))
    × Same logged_in b.controller.session_manager
unfolding Dict.get Dict.insert Dict.empty get_client to_https_endpoint find trim is_whitespace
    starts_with
typed_delivered_example =
    typed_delivered texts proxies (draw "n1") (draw "n2" ∷ draw "n3" ∷ draw "n4" ∷ []) everyone "kb"
      (wrap 0 bob 10000) (chars "alice") (chars "hi") ("\n" ∷ []) refl refl connected refl
      (first-IsChoice, (first-IsChoice, (first-IsChoice, (first-IsChoice, tt)))) draws_unused alice
      refl "https://10.0.0.1:5001" (record { small = refl; address = refl }) [] refl
      (λ e. cc e, (refl, (refl, (refl, (refl, (refl, tt)))))) refl (λ e. cc e) refl (refl, tt) refl
      (λ e. e)

status_told_example :
    (b : World) × (get_status texts.uris
        (network texts proxies (draw "n1" ∷ draw "n2" ∷ []))
        "kb"
        (λ e. e)
        everyone
      ≡ (ok (some (Text.◌++◌ "Status: " (texts.debug (status_of texts.version logged_in)))), b))
    × (b.channels ≡ everyone.channels)
    × Same logged_in b.controller.session_manager
unfolding Dict.get Dict.insert Dict.empty
status_told_example =
    status_told texts proxies (draw "n1") everyone "kb" (wrap 0 bob 10000) refl refl connected
      (draw "n2") [] first-IsChoice refl (λ e. e)
