-- ===== src/Client/Landing.antt =====
-- `LandingServiceImpl` of client/src/services/landing_service.rs, and `TextMessage` of
-- client/src/models.rs. `String::from_utf8_lossy`, of `std`, is an argument.
pub mod Delivery
use fuzzy_chat.Prelude.{
  ℕ, String, List, ◌++◌, ◌∷◌, [], Exec, Status, status, internal, ok, unwrap, map_err, ◌>>=◌, ◌>>◌,
}
use fuzzy_chat.Gateway.Clients.{Router}

pub record TextRequest : Type 0 where
  pub conversation_id : String
  pub access_key : String
  pub nonce : String
  pub content : List ℕ

pub record TextMessage : Type 0 where
  pub sender : String
  pub recipient : String
  pub content : String
  pub at : ℕ

-- `TextMessage::new`
unfoldable pub new_message : (List ℕ → String) → ℕ → String → String → List ℕ → TextMessage
new_message from_utf8_lossy now sender recipient content = record {
  sender = sender;
  recipient = recipient;
  content = from_utf8_lossy content;
  at = now;
}

-- What the client reaches, and the messages in its channel.
pub record Landing (S : Type 0) : Type 0 where
  pub world : S
  pub channel : List TextMessage

module _ {S : Type 0} (router : Router S) (from_utf8_lossy : List ℕ → String) where
  abbrev pub calls : {E A : Type 0} → Exec S E A → Exec (Landing S) E A
  calls m c = ((m c.world).0, record c { world = (m c.world).1 })

  -- `self.tx.send(message).await`
  abbrev pub push : TextMessage → Exec (Landing S) Status Unit
  push m c = (ok tt, record c { channel = c.channel ++ m ∷ [] })

  -- A redemption that tells no sender panics.
  unfoldable pub receive : ℕ → TextRequest → Exec (Landing S) Status Unit
  unfolding new_message
  receive now request = do
    map_err (λ _. status internal "Failed to initialize the router") (calls router.initialize)
    response ←
        map_err (λ _. status internal "Failed to redeem")
          (calls (router.redeem request.conversation_id request.access_key request.nonce))
    sender ← unwrap response.source_info
    push (new_message from_utf8_lossy now sender "myself" request.content)
