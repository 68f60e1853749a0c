-- ===== src/Commands/Deleting.antt =====
-- `delete_contact` and `enqueue_chat_deleted` of crates/y7ke-app/src/app/contacts.rs. The task that
-- `delete_contact` spawns is `flush_pending_delete`; the closing of the socket after it is not
-- modelled.
pub mod Sealed
use y7ke.Prelude.{ℕ, Bool, Option, none, some, is_some, not, if◌then◌else◌}
use y7ke.Bytes.{Bytes}
use y7ke.Ident.{Y7Id, MessageId}
use y7ke.Status.{Result, ok, err}
use y7ke.Crypto.{chat_deleted}
use y7ke.Storage.{Db}
use y7ke.Storage.Sessions
use y7ke.Storage.PendingDeletes
use y7ke.Messaging.{MessageEnvelope}
use y7ke.App.{
  App, Env, Exec, Done, ◌>>=◌, ◌>>◌, gets, modify, finished, over_db, emit, contact_removed,
}
use y7ke.EventLoop.{Times}
use y7ke.EventLoop.Wipe.{wipe_conversation}
use y7ke.Commands.{Fresh, seal_control_for}

abbrev stash : Y7Id → Bytes → ℕ → Db → Db
stash peer bytes now db = record db {
  pending_deletes = PendingDeletes.enqueue db.pending_deletes peer bytes now;
}

-- The sealed envelope, as serde_json writes it, where each step succeeds.
unfoldable pub sealed_deletion : Env → Y7Id → Fresh → Option Bytes
sealed_deletion env peer fresh = elim (seal_control_for env peer chat_deleted fresh) [
  | err e ↦ none
  | ok (id, envelope, ts) ↦ env.envelope_to_json envelope
]

abbrev stash_if : Option Bytes → Y7Id → ℕ → Exec Done
stash_if none peer now = finished
stash_if (some bytes) peer now = modify (over_db (stash peer bytes now))

unfoldable pub enqueue_chat_deleted : Env → Y7Id → Fresh → Times → Exec Done
enqueue_chat_deleted env peer fresh t = do
  session ← gets (λ s. Sessions.get s.db.sessions peer)
  if not (is_some session) then finished else stash_if (sealed_deletion env peer fresh) peer t.now

unfoldable pub delete_contact : Env → Y7Id → Fresh → Times → Exec Done
unfolding enqueue_chat_deleted
delete_contact env peer fresh t = do
  enqueue_chat_deleted env peer fresh t
  wipe_conversation env peer
  emit (contact_removed peer)
