-- ===== src/EventLoop/Inbox.antt =====
-- `handle_msg` and `handle_control` of crates/y7ke-app/src/event_loop.rs.
pub mod Gate
pub mod Delivery
pub mod Controls
use y7ke.Prelude.{
  ℕ, ◌+◌, Bool, true, false, not, Option, none, some, List, [], ◌∷◌, ◌==◌, ltb, is_some,
  if◌then◌else◌, length,
}
use y7ke.Bytes.{Bytes, to_be_bytes}
use y7ke.Ident.{Y7Id, ConversationId}
use y7ke.Status.{
  ContactStatus, accepted, pending_out, blocked, synced, RequestResolution, rejected, Result, ok,
  err, invalid_public_key,
}
use y7ke.RateLimit.{allow_msg}
use y7ke.Crypto.{ControlPayload, rejected_request, accepted_request, chat_deleted}
use y7ke.Storage.{Db}
use y7ke.Storage.Contacts
use y7ke.Storage.Contacts.{Contact}
use y7ke.Storage.Sessions
use y7ke.Storage.Requests
use y7ke.Storage.Requests.{Request}
use y7ke.Storage.Messages
use y7ke.Storage.Messages.{Message}
use y7ke.Messaging.{MessageEnvelope, PlaintextKind, text, control, derive_conv_key, open_envelope}
use y7ke.App.{
  App, Env, Exec, Done, PeerId, ◌>>=◌, ◌>>◌, pure, finished, modify, gets, lift, fail, over_db,
  emit, respond, ignore, msg_reply, request_resolved, contact_added, contact_removed,
  message_received, conversation_from, max_message_bytes,
}
use y7ke.EventLoop.{Times}
use y7ke.EventLoop.Wipe.{wipe_conversation}
use y7ke.EventLoop.Contacting.{or_network}

unfoldable pub admit_msg : PeerId → Times → Exec Bool
admit_msg peer t s =
    let (limiter, allowed) = allow_msg s.rate_limiter peer t.instant in
    (ok allowed, record s { rate_limiter = limiter })

-- The loop over the pending requests: of those of the peer, each is resolved.
unfoldable pub resolve_from :
    Y7Id → RequestResolution → ℕ → List Request → Requests.Requests → Requests.Requests
resolve_from peer how now [] table = table
resolve_from peer how now (r ∷ rs) table =
    if r.peer_y7_id == peer
    then resolve_from peer how now rs (ignore table (Requests.resolve table r.id how now))
    else resolve_from peer how now rs table

unfoldable pub resolve_pending : Y7Id → RequestResolution → ℕ → Db → Db
unfolding resolve_from
resolve_pending peer how now db = record db {
  requests = resolve_from peer how now (Requests.list_pending db.requests none) db.requests;
}

unfoldable pub set_contact : Y7Id → ContactStatus → Db → Db
set_contact peer status db = record db {
  contacts = ignore db.contacts (Contacts.update_status db.contacts peer status);
}

unfoldable pub handle_control : Env → Y7Id → ControlPayload → Times → Exec Done
unfolding resolve_pending set_contact wipe_conversation
handle_control env sender rejected_request t = do
  modify (over_db (resolve_pending sender rejected t.now))
  modify (over_db (set_contact sender blocked))
  emit (request_resolved sender rejected)
handle_control env sender accepted_request t = do
  modify (over_db (resolve_pending sender RequestResolution.accepted t.now))
  modify (over_db (set_contact sender ContactStatus.accepted))
  emit (request_resolved sender RequestResolution.accepted)
  emit (contact_added sender)
handle_control env sender chat_deleted t = do
  wipe_conversation env sender
  emit (contact_removed sender)

abbrev pub has_status : ContactStatus → Option Contact → Bool
has_status blocked (some c) = elim c.status [ blocked ↦ true | _ ↦ false ]
has_status pending_out (some c) = elim c.status [ pending_out ↦ true | _ ↦ false ]
has_status _ _ = false

abbrev pub stored : Env → MessageEnvelope → Messages.NewMessage
stored env e = record {
  message_id = e.message_id;
  conversation_id = conversation_from env e.sender_pub;
  sender_pub = e.sender_pub;
  recipient_pub = env.my_pubkey;
  timestamp_ms = e.timestamp_ms;
  status = synced;
  payload_enc = e.ciphertext;
  payload_nonce = e.nonce;
  sig = e.sig;
}

-- `messages().insert(..)`: whether the row is new.
unfoldable pub store_message : Env → MessageEnvelope → ℕ → Exec Bool
store_message env e now s =
    let (rows, inserted) = Messages.insert s.db.messages (stored env e) now in
    (ok inserted, over_db (λ db. record db { messages = rows }) s)

unfoldable pub promote_requests : Y7Id → ℕ → List Request → Exec Done
promote_requests sender now [] = finished
promote_requests sender now (r ∷ rs) =
    if r.peer_y7_id == sender
    then (do
      modify (
          over_db (λ db. record db {
            requests =
                ignore db.requests
                  (Requests.resolve db.requests r.id RequestResolution.accepted now);
          }))
      emit (request_resolved sender RequestResolution.accepted)
      promote_requests sender now rs)
    else promote_requests sender now rs

unfoldable pub auto_promote : Y7Id → Times → Exec Done
unfolding promote_requests
auto_promote sender t = do
  contact ← gets (λ s. Contacts.get s.db.contacts sender)
  if has_status pending_out contact
      then (do
        contacts ← gets (λ s. Contacts.update_status s.db.contacts sender ContactStatus.accepted)
        rows ← lift contacts
        modify (over_db (λ db. record db { contacts = rows }))
        pending ← gets (λ s. Requests.list_pending s.db.requests none)
        promote_requests sender t.now pending
        emit (contact_added sender))
      else finished

-- The conversation's key and the decrypted content.
unfoldable pub open_from : Env → MessageEnvelope → Result PlaintextKind
open_from env e =
    let c = env.crypto in
    let conv = to_be_bytes 16 (conversation_from env e.sender_pub) in
    y7ke.Messaging.◌>>=◌ (derive_conv_key c env.me e.sender_pub conv) λ key.
      if c.is_point e.sender_pub then open_envelope c e e.sender_pub key else err invalid_public_key

unfoldable pub deliver : Env → MessageEnvelope → Bool → Times → PlaintextKind → Exec Done
unfolding store_message
deliver env e channel t (control payload) = do
  handle_control env e.sender_pub payload t
  respond channel (msg_reply true)
deliver env e channel t (text body) = do
  inserted ← store_message env e t.now
  respond channel (msg_reply true)
  auto_promote e.sender_pub t
  if inserted
      then emit (
          message_received (conversation_from env e.sender_pub) e.message_id e.sender_pub
            e.timestamp_ms body)
      else finished

unfoldable pub handle_msg : Env → PeerId → MessageEnvelope → Bool → Times → Exec Done
unfolding admit_msg
handle_msg env peer e channel t = do
  allowed ← admit_msg peer t
  if not allowed
      then (do
        modify (λ s. record s { rl_drops_msg = s.rl_drops_msg + 1 })
        respond channel (msg_reply false))
      else if ltb (max_message_bytes + 256) (length e.ciphertext)
      then respond channel (msg_reply false)
      else (do
        let sender = e.sender_pub
        expected_peer ← or_network (env.peer_id_from_y7 sender)
        if not (expected_peer == peer) then respond channel (msg_reply false) else (do
          session ← gets (λ s. Sessions.get s.db.sessions sender)
          contact ← gets (λ s. Contacts.get s.db.contacts sender)
          if not (is_some session)
              then respond channel (msg_reply false)
              else if has_status blocked contact
              then respond channel (msg_reply true)
              else (do kind ← lift (open_from env e); deliver env e channel t kind)))
