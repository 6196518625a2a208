-- ===== src/Client/Command.antt =====
-- `Command` of client/src/command.rs. A text's lower-case form is wanted up to the ASCII letters only,
-- since no other character has one of those of "/send" and "/status" for its lower case.
pub mod Parsing
use Prim.Native.Char.{Char, code}
use Prim.Native.String as Text
use fuzzy_chat.Prelude.{
  ℕ, String, Option, none, some, List, [], ◌∷◌, map, ◌+◌, ◌&&◌, Outcome, ok, err, panic, leb, eqb,
  if◌then◌else◌, length, Bool, true, false,
}
use fuzzy_chat.Prelude.Texts.{chars, collect, as_bytes, split_whitespace, find, drop, trim}

pub data Command : Type 0 where
  send : String → List ℕ → Command
  status : Command

unfoldable pub to_lowercase : List Char → List ℕ
to_lowercase [] = []
to_lowercase (c ∷ cs) =
    let n = code c in (if leb 65 n && leb n 90 then n + 32 else n) ∷ to_lowercase cs

abbrev same_text : List ℕ → List ℕ → Bool
same_text [] [] = true
same_text [] (n ∷ ns) = false
same_text (m ∷ ms) [] = false
same_text (m ∷ ms) (n ∷ ns) = eqb m n && same_text ms ns

abbrev pub is_command : String → List Char → Bool
is_command name word = same_text (to_lowercase word) (map code (chars name))

abbrev pub usage : String
usage = "Invalid command format. Usage: /send <to> <message>"

-- `nth(0)` of the words, or the empty text.
abbrev pub first_word : List (List Char) → List Char
first_word [] = []
first_word (word ∷ words) = word

abbrev pub second_word : List (List Char) → Option (List Char)
second_word [] = none
second_word (word ∷ []) = none
second_word (word ∷ to ∷ words) = some to

-- What follows the first place at which the recipient's text stands, if anything does.
unfoldable pub parse_send : List Char → List Char → Outcome String Command
parse_send to command = elim (find to command) [
  | none ↦ panic
  | some index ↦ elim (as_bytes (trim (drop (index + length to) command))) [
    | [] ↦ err usage
    | b ∷ bytes ↦ ok (send (collect to) (b ∷ bytes))
  ]
]

unfoldable pub from_str : String → Outcome String Command
unfolding split_whitespace to_lowercase parse_send find trim
from_str command =
    let wording = split_whitespace (chars command) in
    let cmd = first_word wording in
    if is_command "/send" cmd
    then elim (second_word wording) [ none ↦ err usage | some to ↦ parse_send to (chars command) ]
    else if is_command "/status" cmd
    then ok status
    else err (Text.◌++◌ "Unknown command: " command)
