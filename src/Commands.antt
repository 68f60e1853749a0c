-- ===== src/Commands.antt =====
-- The commands of the user: crates/y7ke-app/src/app/contacts.rs and
-- crates/y7ke-app/src/app/messages.rs and crates/y7ke-app/src/app/settings.rs.
pub mod Deciding
pub mod Asking
pub mod Deleting
pub mod Sending
pub mod Settings
pub mod Bootstraps
pub mod Listing
mod Tests
use y7ke.Prelude.{ℕ, Option, none, some}
use y7ke.Bytes.{Bytes, to_be_bytes}
use y7ke.Ident.{Y7Id, MessageId}
use y7ke.Status.{Result, ok, err}
use y7ke.Crypto.{ControlPayload}
use y7ke.Messaging.{MessageEnvelope, ◌>>=◌, derive_conv_key, seal_control}
use y7ke.App.{Env, conversation_with}

-- What sealing draws: an id of a message and a nonce.
pub record Fresh : Type 0 where
  pub id : MessageId
  pub nonce : ℕ

-- The conversation's key and the sealed control payload.
unfoldable pub seal_control_for :
    Env → Y7Id → ControlPayload → Fresh → Result (MessageId × MessageEnvelope × y7ke.Int.ℤ)
seal_control_for env peer payload fresh = do
  key ← derive_conv_key env.crypto env.me peer (to_be_bytes 16 (conversation_with env peer))
  seal_control env.crypto env.me env.my_pubkey key payload fresh.id fresh.nonce
