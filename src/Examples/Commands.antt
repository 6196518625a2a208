-- ===== src/Examples/Commands.antt =====
-- Lines that are typed.
use Prim.Native.Char.{Char}
use fuzzy_chat.Prelude.{refl, ok, err, panic, [], ◌∷◌, ◌≡◌, ◌≢◌, ℕ, List, String}
use fuzzy_chat.Prelude.Texts.{
  chars, collect, as_bytes, trim, is_whitespace, encode_utf8, starts_with,
}
use fuzzy_chat.Client.Command.{send, from_str, status}
use fuzzy_chat.Client.Command.Parsing.{
  send_line, read_message, from_str_line, from_str_sound, Sends,
}

send_command :
    from_str "/send user123 Hello, World!" ≡ ok (send "user123" (as_bytes (chars "Hello, World!")))
unfolding from_str is_whitespace starts_with encode_utf8
send_command = refl

send_upper_case : from_str " /SEND bob hi " ≡ ok (send "bob" (104 ∷ 105 ∷ []))
unfolding from_str is_whitespace starts_with encode_utf8
send_upper_case = refl

send_nothing :
    from_str "/send uid132132" ≡ err "Invalid command format. Usage: /send <to> <message>"
unfolding from_str is_whitespace starts_with encode_utf8
send_nothing = refl

send_nobody : from_str "/send" ≡ err "Invalid command format. Usage: /send <to> <message>"
unfolding from_str is_whitespace starts_with encode_utf8
send_nobody = refl

status_command : from_str "/status" ≡ ok status
unfolding from_str is_whitespace starts_with encode_utf8
status_command = refl

unknown_command : from_str "/invalid_command" ≡ err "Unknown command: /invalid_command"
unfolding from_str is_whitespace starts_with encode_utf8
unknown_command = refl

-- "s" stands in "/send".
send_to_s : from_str "/send s hi" ≡ ok (send "s" (as_bytes (chars "end s hi")))
unfolding from_str is_whitespace starts_with encode_utf8
send_to_s = refl

euro_sign : as_bytes (chars "€") ≡ 226 ∷ 130 ∷ 172 ∷ []
unfolding encode_utf8
euro_sign = refl

from_str_line_example :
    from_str (collect (send_line (chars "bob") (chars "hi there")))
    ≡ ok (send (collect (chars "bob")) (as_bytes (read_message (chars "bob") (chars "hi there"))))
unfolding is_whitespace trim
from_str_line_example =
    from_str_line (chars "bob") (chars "hi there") (λ e. cc e, (refl, (refl, (refl, tt))))
      (λ e. cc e) refl

from_str_sound_example :
    (from_str "/send s hi" ≢ panic)
    × ((to : String) (message : List ℕ)
        → from_str "/send s hi" ≡ ok (send to message)
        → (word : List Char) × Sends "/send s hi" word × (collect word ≡ to) × (message ≢ []))
from_str_sound_example = from_str_sound "/send s hi"
