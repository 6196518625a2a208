-- ===== src/Client/Prompt.antt =====
-- The command loop of client/src/main.rs: which lines of the standard input are handed on, and what
-- one of them does. The texts that are only logged are left out.
use fuzzy_chat.Prelude.{String, Option, none, some, [], ◌∷◌, ok, err, panic, Exec}
use fuzzy_chat.Prelude.Texts.{chars, trim}
use fuzzy_chat.Crosscutting.Endpoint.{UriText}
use fuzzy_chat.Gateway.Clients.{Factories}
use fuzzy_chat.Client.Command.{Command, send, status, from_str}
use fuzzy_chat.Client.Commander.{send_message, get_status}

-- A blank line is not handed on; any other is, as it was read.
unfoldable pub read_input : String → Option String
unfolding trim
read_input buffer = elim (trim (chars buffer)) [ [] ↦ none | c ∷ cs ↦ some buffer ]

-- Whether the loop goes on.
pub data Next : Type 0 where
  again exit : Next

module _ {S Uri : Type 0} (uris : UriText Uri) (factories : Factories S Uri)
    (show_status : String → String) where
  unfoldable pub run_command : String → Command → Exec S String (Option String)
  unfolding send_message get_status
  run_command access_key status = get_status uris factories access_key show_status
  run_command access_key (send to content) =
      send_message uris factories access_key show_status to content

  -- One turn of the loop. A line that is no command, and a command that fails, are only warned of;
  -- without an access key the loop ends.
  unfoldable pub handle_input : Option String → String → Exec S String Next
  unfolding from_str run_command
  handle_input access_key input s = elim (from_str input) [
    | panic ↦ (panic, s)
    | err e ↦ (ok again, s)
    | ok cmd ↦ elim access_key [
      | none ↦ (ok exit, s)
      | some key ↦
          let r = run_command key cmd s in
          elim r.0 [
            | panic ↦ (panic, r.1)
            | err e ↦ (ok again, r.1)
            | ok response ↦ (ok again, r.1)
          ]
    ]
  ]
