-- ===== src/Client/Command/Parsing.antt =====
-- What a typed line becomes.
use Prim.Native.Char.{Char, code}
use Prim.Native.String as Text
use fuzzy_chat.Prelude.{
  ℕ, ◌+◌, String, none, some, List, [], ◌∷◌, ◌++◌, ok, err, panic, ◌≡◌, ◌≢◌, refl, ap, sym, ◌∙◌,
  arith, true, length, here, there, is_some, Bool-cases, Option-cases, inl, inr, ◌⊎◌,
}
use fuzzy_chat.Prelude.Texts.{
  chars, collect, chars-collect, as_bytes, encode_utf8, split_whitespace, find, drop, trim,
  trim_start, is_whitespace,
}
use fuzzy_chat.Prelude.Texts.Blanks.{IsBlank, trim-append}
use fuzzy_chat.Prelude.Texts.Laws.{
  IsWord, split_whitespace-cons, find-space, find_word-here, drop-append, drop-In, find-le,
  List-cases, find-word, trim-ne-nil,
}
use fuzzy_chat.Client.Command.{send, status, from_str, parse_send, is_command, to_lowercase, usage}

-- "/send", a recipient and a message, with a blank between.
abbrev pub send_line : List Char → List Char → List Char
send_line to message = chars "/send" ++ " " ∷ to ++ " " ∷ message

-- The message that such a line is read to have.
abbrev pub read_message : List Char → List Char → List Char
read_message to message = elim (find to (chars "/send")) [
  | none ↦ message
  | some i ↦ trim (drop (i + length to) (send_line to message))
]

encode_utf8-ne-nil : (n : ℕ) → encode_utf8 n ≢ []
unfolding encode_utf8
encode_utf8-ne-nil n e = ground (arith, e)

as_bytes-cons : (c : Char) (cs : List Char) → (b : ℕ) × (bs : List ℕ) × (as_bytes (c ∷ cs) ≡ b ∷ bs)
as_bytes-cons c cs = elim (List-cases (encode_utf8 (code c))) [
  | inl e ↦ absurd (encode_utf8-ne-nil (code c) e)
  | inr (b, bs, e) ↦ (b, bs ++ as_bytes cs, ap (λ bytes. bytes ++ as_bytes cs) e)
]

trim_blank : (message : List Char) → trim (" " ∷ message) ≡ trim message
unfolding trim trim_start is_whitespace
trim_blank message = refl

words_lem :
    (to message : List Char)
    → IsWord to
    → split_whitespace (send_line to message) ≡ chars "/send" ∷ to ∷ split_whitespace message
unfolding is_whitespace
words_lem [] message (e, h) = absurd (e refl)
words_lem (c ∷ to) message (e, h) =
    split_whitespace-cons "/" (chars "send") " " ((c ∷ to) ++ " " ∷ message)
      (refl, (refl, (refl, (refl, (refl, tt))))) refl
    ∙ ap (λ ws. chars "/send" ∷ ws) (split_whitespace-cons c to " " message h refl)

index_lem :
    (to message : List Char)
    → IsWord to
    → find to (send_line to message)
      ≡ some (elim (find to (chars "/send")) [ none ↦ 6 | some i ↦ i ])
unfolding is_whitespace
index_lem [] message (e, h) = absurd (e refl)
index_lem (c ∷ to) message (e, h) =
    find-space (c ∷ to) (chars "/send") " " ((c ∷ to) ++ " " ∷ message) (e, h) refl
    ∙ elim (Option-cases (find (c ∷ to) (chars "/send"))) [
      | inl g ↦ rw (g, find_word-here c to (" " ∷ message))
      | inr (i, g) ↦ rw g
    ]

-- What follows a place in "/send" is not blank.
rest_kept :
    (to message : List Char) (i : ℕ)
    → IsWord to
    → find to (chars "/send") ≡ some i
    → trim (drop (i + length to) (send_line to message)) ≢ []
rest_kept [] message i (e, h) g = absurd (e refl)
rest_kept (c ∷ to) message i (e, (h, hs)) g =
    trim-ne-nil c _
      (drop-In c (i + length (c ∷ to)) (chars "/send") (" " ∷ (c ∷ to) ++ " " ∷ message)
        (find-le (c ∷ to) (chars "/send") i g) (there (here refl)))
      h

-- `parse_send` where the recipient's text stands.
parse_send_at :
    (to command : List Char) (i : ℕ) (c : Char) (message : List Char)
    → find to command ≡ some i
    → trim (drop (i + length to) command) ≡ c ∷ message
    → parse_send to command ≡ ok (send (collect to) (as_bytes (c ∷ message)))
unfolding parse_send
parse_send_at to command i c message e f =
    let (b, bs, g) = as_bytes-cons c message in ground (arith, e, f, g)

read_none :
    (to message : List Char) → find to (chars "/send") ≡ none → read_message to message ≡ message
read_none to message g = ground (arith, g)

read_some :
    (to message : List Char) (i : ℕ)
    → find to (chars "/send") ≡ some i
    → read_message to message ≡ trim (drop (i + length to) (send_line to message))
read_some to message i g = ground (arith, g)

-- A text that is not blank, for a recipient whose text does not stand in "/send".
send_line-none :
    (to typed : List Char) (c : Char) (message : List Char)
    → IsWord to
    → find to (chars "/send") ≡ none
    → trim typed ≡ c ∷ message
    → parse_send to (send_line to typed) ≡ ok (send (collect to) (as_bytes (c ∷ message)))
send_line-none to typed c message word g trimmed =
    let index = index_lem to typed word in
    parse_send_at to (send_line to typed) 6 c message (rw g at index) (
      ap (λ n. trim (drop n (send_line to typed)))
        {y = length ("/" ∷ "s" ∷ "e" ∷ "n" ∷ "d" ∷ " " ∷ to)} (omega arith)
      ∙ ap trim (drop-append ("/" ∷ "s" ∷ "e" ∷ "n" ∷ "d" ∷ " " ∷ to) (" " ∷ typed))
      ∙ trim_blank typed
      ∙ trimmed)

send_line_lem :
    (to message : List Char)
    → IsWord to
    → message ≢ []
    → trim message ≡ message
    → parse_send to (send_line to message)
      ≡ ok (send (collect to) (as_bytes (read_message to message)))
send_line_lem to [] word some_text trimmed = absurd (some_text refl)
send_line_lem to (c ∷ message) word some_text trimmed =
    let index = index_lem to (c ∷ message) word in
    elim (Option-cases (find to (chars "/send"))) [
      | inl g ↦
          send_line-none to (c ∷ message) c message word g trimmed
          ∙ ap (λ m. ok (send (collect to) (as_bytes m))) (sym (read_none to (c ∷ message) g))
      | inr (i, g) ↦ elim (List-cases (trim (drop (i + length to) (send_line to (c ∷ message))))) [
        | inl f ↦ absurd (rest_kept to (c ∷ message) i word g f)
        | inr (d, ds, f) ↦
            parse_send_at to (send_line to (c ∷ message)) i d ds (rw g at index) f
            ∙ ap (λ m. ok (send (collect to) (as_bytes m)))
                (sym (read_some to (c ∷ message) i g ∙ f))
      ]
    ]

from_str-send :
    (command : String) (cs cmd to : List Char) (words : List (List Char))
    → chars command ≡ cs
    → split_whitespace cs ≡ cmd ∷ to ∷ words
    → is_command "/send" cmd ≡ true
    → from_str command ≡ parse_send to cs
unfolding from_str
from_str-send command cs cmd to words e f g = ground (arith, e, f, g)

-- A line of "/send", a recipient of one word and a message, not empty and trimmed, with a blank
-- between, is a command to send to that recipient. It sends the bytes of that message unless the
-- recipient's text stands in "/send" itself: then it sends, trimmed, all that follows that place.
pub from_str_line :
    (to message : List Char)
    → IsWord to
    → message ≢ []
    → trim message ≡ message
    → from_str (collect (send_line to message))
      ≡ ok (send (collect to) (as_bytes (read_message to message)))
unfolding to_lowercase
from_str_line to message word some_text trimmed =
    from_str-send (collect (send_line to message)) (send_line to message) (chars "/send") to
      (split_whitespace message) (chars-collect (send_line to message)) (words_lem to message word)
      refl
    ∙ send_line_lem to message word some_text trimmed

-- A line that is entered with white space after the message, as a line break.
pub from_str_entered :
    (to message ending : List Char)
    → IsWord to
    → message ≢ []
    → trim message ≡ message
    → IsBlank ending
    → find to (chars "/send") ≡ none
    → from_str (collect (send_line to (message ++ ending)))
      ≡ ok (send (collect to) (as_bytes message))
unfolding to_lowercase
from_str_entered to [] ending word some_text trimmed blank g = absurd (some_text refl)
from_str_entered to (c ∷ message) ending word some_text trimmed blank g =
    let line = send_line to ((c ∷ message) ++ ending) in
    from_str-send (collect line) line (chars "/send") to
      (split_whitespace ((c ∷ message) ++ ending)) (chars-collect line)
      (words_lem to ((c ∷ message) ++ ending) word) refl
    ∙ send_line-none to ((c ∷ message) ++ ending) c message word g
        (trim-append (c ∷ message) ending blank ∙ trimmed)

-- What `parse_send` gives: no panic, if the text stands in the line, and its recipient and message.
parse_send_lem :
    (to command : List Char)
    → is_some (find to command) ≡ true
    → (parse_send to command ≡ err usage)
      ⊎ ((message : List ℕ) × (parse_send to command ≡ ok (send (collect to) message))
          × (message ≢ []))
unfolding parse_send
parse_send_lem to command h = elim (Option-cases (find to command)) [
  | inl e ↦ cc (h, ap is_some e)
  | inr (i, e) ↦ elim (List-cases (as_bytes (trim (drop (i + length to) command)))) [
    | inl f ↦ inl (ground (arith, e, f))
    | inr (b, bs, f) ↦ inr (b ∷ bs, ground (arith, e, f), λ g. cc g)
  ]
]

-- A line with two words at least, the first of them "/send".
abbrev pub Sends : String → List Char → Type 0
Sends command word =
    (cmd : List Char) × (words : List (List Char)) × (split_whitespace (chars command)
      ≡ cmd ∷ word ∷ words)
    × (is_command "/send" cmd ≡ true)

from_str-cases :
    (command : String)
    → (((e : String) × (from_str command ≡ err e)) ⊎ (from_str command ≡ ok status))
      ⊎ ((word : List Char) × Sends command word
          × (from_str command ≡ parse_send word (chars command)))
unfolding from_str to_lowercase
from_str-cases command = elim (List-cases (split_whitespace (chars command))) [
  | inl e ↦ inl (inl (Text.◌++◌ "Unknown command: " command, rw e))
  | inr (cmd, rest, e) ↦ elim (Bool-cases (is_command "/send" cmd)) [
    | inl s ↦ elim (List-cases rest) [
      | inl f ↦ inl (inl (usage, rw (e, f, s)))
      | inr (word, words, f) ↦ inr (
        word,
        (cmd, words, e ∙ ap (λ r. cmd ∷ r) f, s),
        from_str-send command (chars command) cmd word words refl (e ∙ ap (λ r. cmd ∷ r) f) s,
      )
    ]
    | inr s ↦ elim (Bool-cases (is_command "/status" cmd)) [
      | inl t ↦ inl (inr (rw (e, s, t)))
      | inr t ↦ inl (inl (Text.◌++◌ "Unknown command: " command, rw (e, s, t)))
    ]
  ]
]

-- No line makes the parser panic. What it reads as a command to send has "/send" for its first word,
-- in upper or lower case, the recipient for its second, and a message that is not empty.
pub from_str_sound :
    (command : String)
    → (from_str command ≢ panic)
      × ((to : String) (message : List ℕ)
          → from_str command ≡ ok (send to message)
          → (word : List Char) × Sends command word × (collect word ≡ to) × (message ≢ []))
from_str_sound command = elim (from_str-cases command) [
  | inl (inl (e, f)) ↦ (λ p. cc (f, p), λ to m p. cc (f, p))
  | inl (inr f) ↦ (λ p. cc (f, p), λ to m p. cc (f, p))
  | inr (word, (cmd, words, e, s), f) ↦
      elim (parse_send_lem word (chars command)
        (find-word (chars command) word (rw e (there (here refl))))) [
          | inl g ↦ (λ p. cc (f, g, p), λ to m p. cc (f, g, p))
          | inr (message, g, n) ↦ (
            λ p. cc (f, g, p),
            λ to m p. (word, (cmd, words, e, s), cc (f, g, p), λ z. n (cc (f, g, p, z))),
          )
        ]
]
