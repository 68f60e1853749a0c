-- ===== src/Storage.antt =====
-- crates/y7ke-storage/src/db.rs: the tables together, and the wipe of a peer. The statements are
-- taken to succeed: an I/O failure of SQLite is not modelled.
pub mod Contacts
pub mod Sessions
pub mod Requests
pub mod SyncQueue
pub mod PendingDeletes
pub mod PeerStates
pub mod Messages
pub mod Settings
mod Wipe
mod Tests
use y7ke.Bytes.{Bytes}
use y7ke.Prelude.{Option, ℕ, List, ◌==◌}
use y7ke.Sql.{delete_where}
use y7ke.Ident.{Y7Id, ConversationId}
use Contacts.{Contact}
use Sessions.{Session}
use Requests.{Request}
use SyncQueue.{SyncQueueEntry}
use PendingDeletes.{PendingDelete}
use PeerStates.{PeerState}
use Messages.{Message}

pub record Db : Type 0 where
  pub contacts : List Contact
  pub requests : Requests.Requests
  pub messages : List Message
  pub sessions : List Session
  pub sync_queue : List SyncQueueEntry
  pub pending_deletes : List PendingDelete
  pub peer_state : List PeerState
  pub settings : Option Bytes

unfoldable pub wipe_peer : Db → Y7Id → ConversationId → Db
wipe_peer db peer conv = record db {
  messages = delete_where (λ (m : Message). m.conversation_id == conv) db.messages;
  sessions = delete_where (λ (s : Session). s.peer_y7_id == peer) db.sessions;
  sync_queue = delete_where (λ (e : SyncQueueEntry). e.target_peer_y7_id == peer) db.sync_queue;
  requests = record (db.requests) {
    rows = delete_where (λ (r : Request). r.peer_y7_id == peer) db.requests.rows;
  };
  contacts = delete_where (λ (c : Contact). c.y7_id == peer) db.contacts;
  peer_state = delete_where (λ (p : PeerState). p.peer_y7_id == peer) db.peer_state;
}
