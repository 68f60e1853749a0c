-- ===== src/Commands/Sending.antt =====
-- `send_message`, `push_one`, `debug_clear_outbound_queue` and `list_messages` of
-- crates/y7ke-app/src/app/messages.rs. What `send_message` gives back holds the envelope too, which
-- the task that it spawns hands to `push_one`.
pub mod Kept
pub mod Opened
use y7ke.Prelude.{
  ℕ, ◌+◌, Bool, true, false, Option, none, some, List, [], ◌∷◌, ◌==◌, ltb, is_some, not, length,
  if◌then◌else◌,
}
use y7ke.Bytes.{Bytes, to_be_bytes}
use y7ke.Int.{ℤ}
use y7ke.Ident.{Y7Id, MessageId, ConversationId}
use y7ke.Status.{
  Result, ok, err, invalid_input, invalid_public_key, network, MessageStatus, sending, delivered,
}
use y7ke.Storage.{Db}
use y7ke.Storage.Sessions
use y7ke.Storage.SyncQueue
use y7ke.Storage.SyncQueue.{SyncQueueEntry}
use y7ke.Storage.Messages
use y7ke.Storage.Messages.{Message}
use y7ke.Messaging.{
  MessageEnvelope, PlaintextKind, text, control, derive_conv_key, seal_outgoing, open_envelope,
}
use y7ke.App.{
  App, Env, Exec, Done, PeerId, ◌>>=◌, ◌>>◌, pure, fail, lift, gets, modify, finished, over_db,
  emit, message_status_changed, conversation_with, max_message_bytes, my_y7_id,
}
use y7ke.EventLoop.{Times, next_retry_at}
use y7ke.EventLoop.Contacting.{or_network}
use y7ke.EventLoop.Syncing.{to_envelope}
use y7ke.EventLoop.Outbox.{Network, send_msg, mark, dequeue, i64_max}
use y7ke.Commands.{Fresh}

abbrev pub outgoing_row : Env → Y7Id → MessageId → MessageEnvelope → Messages.NewMessage
outgoing_row env to id e = record {
  message_id = id;
  conversation_id = conversation_with env to;
  sender_pub = env.my_pubkey;
  recipient_pub = to;
  timestamp_ms = e.timestamp_ms;
  status = sending;
  payload_enc = e.ciphertext;
  payload_nonce = e.nonce;
  sig = e.sig;
}

-- The envelope of a text to a peer.
unfoldable pub seal_text : Env → Y7Id → Bytes → Fresh → Result (MessageId × MessageEnvelope × ℤ)
seal_text env to body fresh =
    y7ke.Messaging.◌>>=◌
      (derive_conv_key env.crypto env.me to (to_be_bytes 16 (conversation_with env to)))
      λ key. seal_outgoing env.crypto env.me env.my_pubkey key body fresh.id fresh.nonce

abbrev add_message : Messages.NewMessage → ℕ → Db → Db
add_message m now db = record db { messages = (Messages.insert db.messages m now).0 }

unfoldable pub send_message :
    Env → Y7Id → Bytes → Fresh → Times → Exec (MessageId × MessageEnvelope)
send_message env to body fresh t =
    if to == my_y7_id env
    then fail invalid_input
    else if ltb max_message_bytes (length body)
    then fail invalid_input
    else (do
      peer_id ← or_network (env.peer_id_from_y7 to)
      session ← gets (λ s. Sessions.get s.db.sessions to)
      if not (is_some session) then fail invalid_input else (do
        sealed ← lift (seal_text env to body fresh)
        modify (over_db (add_message (outgoing_row env to sealed.0 sealed.1) t.now))
        pure (sealed.0, sealed.1)))

unfoldable pub push_one : Network → MessageId → Y7Id → PeerId → MessageEnvelope → Times → Exec Done
push_one net id to peer e t = do
  acked ← send_msg net peer e
  if acked
      then (do modify (over_db (mark id delivered)); emit (message_status_changed id delivered))
      else modify (
          over_db (λ db. record db {
            sync_queue = SyncQueue.enqueue db.sync_queue id to (next_retry_at 0 t.now);
          }))

unfoldable pub clear_entries : Y7Id → List SyncQueueEntry → ℕ → Exec ℕ
clear_entries peer [] n = pure n
clear_entries peer (e ∷ es) n =
    if e.target_peer_y7_id == peer
    then (do modify (over_db (dequeue e.message_id peer)); clear_entries peer es (n + 1))
    else clear_entries peer es n

unfoldable pub debug_clear_outbound_queue : Y7Id → Exec ℕ
unfolding clear_entries
debug_clear_outbound_queue peer = do
  due ← gets (λ s. SyncQueue.due s.db.sync_queue i64_max 100000)
  clear_entries peer due 0

pub data ShownText : Type 0 where
  shown : Bytes → ShownText
  decryption_failed : ShownText

pub record MessageView : Type 0 where
  pub message_id : MessageId
  pub conversation_id : ConversationId
  pub sender_y7_id : Y7Id
  pub text : ShownText
  pub timestamp_ms : ℤ
  pub status : MessageStatus
  pub is_mine : Bool

abbrev view_of : Env → Message → ShownText → MessageView
view_of env m body = record {
  message_id = m.message_id;
  conversation_id = m.conversation_id;
  sender_y7_id = m.sender_pub;
  text = body;
  timestamp_ms = m.timestamp_ms;
  status = m.status;
  is_mine = m.sender_pub == env.my_pubkey;
}

-- A control payload is passed over; a row that does not open is shown as such.
abbrev show : Env → Message → Result PlaintextKind → List MessageView → List MessageView
show env m (ok (text body)) rest = view_of env m (shown body) ∷ rest
show env m (ok (control p)) rest = rest
show env m (err e) rest = view_of env m decryption_failed ∷ rest

unfoldable pub views : Env → Bytes → List Message → Result (List MessageView)
views env key [] = ok []
views env key (m ∷ ms) =
    if env.crypto.is_point m.sender_pub
    then y7ke.Messaging.◌>>=◌ (views env key ms)
        (λ rest. ok (show env m (open_envelope env.crypto (to_envelope m) m.sender_pub key) rest))
    else err invalid_public_key

unfoldable pub list_messages : Env → Y7Id → ℤ → App → Result (List MessageView)
list_messages env peer limit s =
    let conv = conversation_with env peer in
    y7ke.Messaging.◌>>=◌ (derive_conv_key env.crypto env.me peer (to_be_bytes 16 conv))
      λ key. views env key (Messages.list_for_conversation s.db.messages conv limit)
