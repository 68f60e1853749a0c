-- ===== src/Storage/Wipe.antt =====
-- What a wipe removes and what it keeps.
use y7ke.Prelude.{◌≡◌, refl, ◌↔◌, none, false, ◌==◌, In}
use y7ke.Sql.Rows.{In-delete_where, find-delete_where_self}
use y7ke.Ident.{Y7Id, ConversationId}
use y7ke.Storage.{Db, wipe_peer}
use y7ke.Storage.Contacts
use y7ke.Storage.Contacts.{Contact}
use y7ke.Storage.Sessions
use y7ke.Storage.Sessions.{Session}
use y7ke.Storage.Requests.{Request}
use y7ke.Storage.SyncQueue.{SyncQueueEntry}
use y7ke.Storage.PeerStates.{PeerState}
use y7ke.Storage.Messages.{Message}

-- The rows of `after` are the rows of `before` but those of the peer and of its conversation.
pub record Wiped (before after : Db) (peer : Y7Id) (conv : ConversationId) : Type 0 where
  pub messages :
      (m : Message)
      → In m after.messages ↔ (In m before.messages × ((m.conversation_id == conv) ≡ false))
  pub sessions :
      (s : Session)
      → In s after.sessions ↔ (In s before.sessions × ((s.peer_y7_id == peer) ≡ false))
  pub queue :
      (e : SyncQueueEntry)
      → In e after.sync_queue ↔ (In e before.sync_queue × ((e.target_peer_y7_id == peer) ≡ false))
  pub requests :
      (r : Request)
      → In r after.requests.rows ↔ (In r before.requests.rows × ((r.peer_y7_id == peer) ≡ false))
  pub contacts :
      (c : Contact) → In c after.contacts ↔ (In c before.contacts × ((c.y7_id == peer) ≡ false))
  pub peer_state :
      (p : PeerState)
      → In p after.peer_state ↔ (In p before.peer_state × ((p.peer_y7_id == peer) ≡ false))
  pub outbox : after.pending_deletes ≡ before.pending_deletes

-- A wipe removes, of six tables, the rows of the peer or of its conversation and no other row, and
-- leaves the outbox of sealed deletions alone.
wipe_peer-Wiped :
    (db : Db) (peer : Y7Id) (conv : ConversationId) → Wiped db (wipe_peer db peer conv) peer conv
unfolding wipe_peer
wipe_peer-Wiped db peer conv = record {
  messages = λ m. In-delete_where _ m db.messages;
  sessions = λ s. In-delete_where _ s db.sessions;
  queue = λ e. In-delete_where _ e db.sync_queue;
  requests = λ r. In-delete_where _ r db.requests.rows;
  contacts = λ c. In-delete_where _ c db.contacts;
  peer_state = λ p. In-delete_where _ p db.peer_state;
  outbox = refl;
}

pub get-wipe_peer :
    (db : Db) (peer : Y7Id) (conv : ConversationId)
    → (Contacts.get (wipe_peer db peer conv).contacts peer ≡ none)
      × (Sessions.get (wipe_peer db peer conv).sessions peer ≡ none)
unfolding wipe_peer Contacts.get Sessions.get
get-wipe_peer db peer conv =
    (find-delete_where_self _ db.contacts, find-delete_where_self _ db.sessions)
