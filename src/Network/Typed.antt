-- ===== src/Network/Typed.antt =====
-- From a line that a client types to the text that another receives: `Command::from_str`,
-- `Commander.send_message` and the network together.
use Prim.Native.Char.{Char}
use fuzzy_chat.Prelude.{
  inl, inr, sym, here, ℕ, String, ◌≡◌, ◌≢◌, none, some, ok, arith, List, [], ◌∷◌, ◌++◌, length,
  Option, refl, ◌∙◌, ap,
}
use fuzzy_chat.Prelude.Dict
use fuzzy_chat.Prelude.Texts.{chars, collect, chars-collect, as_bytes, find, trim, is_whitespace}
use fuzzy_chat.Prelude.Texts.Laws.{IsWord, List-cases, trim-ne-nil}
use fuzzy_chat.Prelude.Texts.Blanks.{IsBlank}
use fuzzy_chat.Controller.Models.{SessionInfo}
use fuzzy_chat.Controller.Routing.{without_dashes}
use fuzzy_chat.Controller.Storage.Sessions.{get_client}
use fuzzy_chat.Controller.Storage.Sessions.Shrinks.{Wrapped}
use fuzzy_chat.Crosscutting.Endpoint.{UriText}
use fuzzy_chat.Gateway.Clients.{Factories}
use fuzzy_chat.Client.Command.{send, from_str}
use fuzzy_chat.Client.Command.Parsing.{send_line, from_str_entered}
use fuzzy_chat.Client.Commander.{send_message}
use fuzzy_chat.Client.Landing.{TextMessage, new_message}
use fuzzy_chat.Client.Prompt.{again, handle_input, read_input}
use fuzzy_chat.Network.{World, Draw, Texts, network}
use fuzzy_chat.Network.Delivery.{message_delivered}
use fuzzy_chat.Network.Journey.{Fair, New, At, Connected}
use fuzzy_chat.Network.Sessions.{Same}

-- A line that is a command to send, whose sending is answered.
handle_input-send :
    {S Uri : Type 0} (uris : UriText Uri) (f : Factories S Uri) (show : String → String)
    (key input to : String) (content : List ℕ) (x : Option String) (s b : S)
    → from_str input ≡ ok (send to content)
    → send_message uris f key show to content s ≡ (ok x, b)
    → handle_input uris f show (some key) input s ≡ (ok again, b)
unfolding handle_input
handle_input-send uris f show key input to content x s b e g = ground (arith, e, g)

collect-ne : (to : List Char) → IsWord to → ◌≢◌ {A = String} (collect to) ""
collect-ne [] (e, h) = absurd (e refl)
collect-ne (c ∷ to) (e, h) = λ p. cc p

-- Such a line is handed on.
read_input-line :
    (to typed : List Char)
    → read_input (collect (send_line to typed)) ≡ some (collect (send_line to typed))
unfolding read_input is_whitespace
read_input-line to typed =
    let line = send_line to typed in
    elim (List-cases (trim (chars (collect line)))) [
      | inl e ↦
          absurd (trim-ne-nil "/" line (here refl) refl (sym (ap trim (chars-collect line)) ∙ e))
      | inr (c, cs, e) ↦ ground (arith, e)
    ]

new_message_text :
    (lossy : List ℕ → String) (now : ℕ) (sender : String) (bytes : List ℕ) (text : String)
    → lossy bytes ≡ text
    → new_message lossy now sender "myself" bytes
      ≡ record { sender = sender; recipient = "myself"; content = text; at = now }
unfolding new_message
new_message_text lossy now sender bytes text e = rw e

module _ (t : Texts) (proxies : String → Option String) (d : Draw) (ds : List Draw) (w : World)
    (key : String) (session : Wrapped) (to message ending : List Char) where
  -- A client with a session types "/send", the uid of another and a message, and enters the line, over
  -- a network of four draws: the uid is one word and does not stand in "/send", the message is not
  -- empty and trimmed, lossy decoding gives it back from its bytes, and what ends the line is white
  -- space, as a line break is. Every access key is offered another proxy, every
  -- indexed proxy is at the endpoint of its session, logged in with the access key of a session; the
  -- recipient is at its own endpoint with an open channel; the new conversation and the four nonces
  -- are new, and the random choices of their ranges. Then the line is handed on with its end, the loop
  -- goes on, the recipient's channel
  -- has one message more, with the sender's uid and the text that was typed, no other channel
  -- changes, and the sessions are the same but for their times.
  pub typed_delivered :
      Dict.get w.controller.session_manager.sessions key ≡ some session
      → Dict.get w.controller.route_manager.conversations (without_dashes d.conversation_uuid)
        ≡ none
      → Connected t proxies w.controller.session_manager
      → length ds ≡ 3
      → Fair (d ∷ ds)
      → New (d ∷ ds) w.controller
      → (q : SessionInfo) → get_client (collect to) w.controller.session_manager ≡ some q
      → (uri : String) → At t q uri
      → (channel : List TextMessage) → Dict.get w.channels uri ≡ some channel
      → IsWord to
      → find to (chars "/send") ≡ none
      → message ≢ []
      → trim message ≡ message
      → IsBlank ending
      → t.from_utf8_lossy (as_bytes message) ≡ collect message
      → (show : String → String)
      → (read_input (collect (send_line to (message ++ ending)))
          ≡ some (collect (send_line to (message ++ ending))))
        × (b : World) × (now : ℕ) × (handle_input t.uris
              (network t proxies (d ∷ ds))
              show
              (some key)
              (collect (send_line to (message ++ ending)))
              w
            ≡ (ok again, b))
        × (b.channels
            ≡ Dict.insert w.channels uri (
                channel
                ++ record {
                  sender = session.value.uid;
                  recipient = "myself";
                  content = collect message;
                  at = now;
                }
                  ∷ []))
        × Same w.controller.session_manager b.controller.session_manager
  typed_delivered has_session new_id connected three fair new q client uri at channel listening word
        outside some_text trimmed blank text show =
      let (b, now, sent, arrived, same) =
        message_delivered t proxies d w key (collect to) session has_session (collect-ne to word)
          new_id connected ds three fair new q client uri at channel listening show
          (as_bytes message) in
      (
        read_input-line to (message ++ ending),
        b,
        now,
        handle_input-send t.uris (network t proxies (d ∷ ds)) show key
            (collect (send_line to (message ++ ending))) (collect to) (as_bytes message)
            (some "Message sent") w b
            (from_str_entered to message ending word some_text trimmed blank outside) sent,
        arrived
            ∙ ap (λ m. Dict.insert w.channels uri (channel ++ m ∷ []))
                (new_message_text t.from_utf8_lossy now session.value.uid (as_bytes message)
                  (collect message) text),
        same,
      )
