-- ===== src/EventLoop/Reconcile.antt =====
-- `spawn_kick_sync`, `kick_sync_for_peer` and `ingest_synced_envelope` of
-- crates/y7ke-app/src/event_loop.rs: the side of a reconciliation that asks. The peer's answer to the
-- n-th request is an argument.
pub mod Ingest
pub mod Loop
pub mod Settled
use y7ke.Prelude.{
  ℕ, zero, suc, ◌+◌, Bool, true, false, not, Option, none, some, List, [], ◌∷◌, ◌++◌, ◌==◌, ltb,
  any, if◌then◌else◌, length, retain, find, last?, is_some,
}
use y7ke.Ident.{Y7Id, MessageId, ConversationId}
use y7ke.Status.{synced, Result, ok, err, network, ContactStatus}
use y7ke.Storage.{Db}
use y7ke.Storage.Contacts
use y7ke.Storage.Sessions
use y7ke.Storage.SyncQueue
use y7ke.Storage.Messages
use y7ke.Storage.Messages.{Message}
use y7ke.Messaging.{MessageEnvelope, PlaintextKind, text, control}
use y7ke.App.{
  App, Env, Exec, Done, PeerId, ◌>>=◌, ◌>>◌, pure, finished, modify, gets, lift, fail, over_db,
  emit, message_status_changed, message_received, SyncReq, header, pull, ack, SyncResp, header_ack,
  pulled, acked, ConversationDigest, conversation_with, conversation_from, max_message_bytes,
}
use y7ke.EventLoop.{Times}
use y7ke.EventLoop.Contacting.{accepted_contact}
use y7ke.EventLoop.Inbox.{store_message, open_from}

abbrev pub sync_pull_limit : ℕ
sync_pull_limit = 50

abbrev pub sync_max_pull_pages : ℕ
sync_max_pull_pages = 64

abbrev pub SyncNetwork : Type 0
SyncNetwork = ℕ → SyncReq → Result SyncResp

unfoldable pub send_sync : SyncNetwork → ℕ → PeerId → SyncReq → Exec (Result SyncResp)
send_sync net n peer request s =
    (ok (net n request), record s { asked = s.asked ++ (peer, request) ∷ [] })

-- The text of an envelope goes into the table; a control payload is passed over.
unfoldable pub ingest_kind : Env → MessageEnvelope → Times → PlaintextKind → Exec Bool
unfolding store_message
ingest_kind env e t (control payload) = pure false
ingest_kind env e t (text body) = do
  inserted ← store_message env e t.now
  if inserted
      then (do
        emit (
            message_received (conversation_from env e.sender_pub) e.message_id e.sender_pub
              e.timestamp_ms body)
        pure true)
      else pure false

unfoldable pub ingest_synced_envelope : Env → Y7Id → MessageEnvelope → Times → Exec Bool
unfolding ingest_kind
ingest_synced_envelope env expected_sender e t =
    if ltb (max_message_bytes + 256) (length e.ciphertext)
    then pure false
    else if not (e.sender_pub == expected_sender)
    then pure false
    else (do
      session ← gets (λ s. Sessions.get s.db.sessions e.sender_pub)
      if not (is_some session)
          then fail network
          else (do kind ← lift (open_from env e); ingest_kind env e t kind))

-- A failure is logged and the loop goes on.
abbrev or_false : Result Bool × App → Result Bool × App
or_false (ok b, s) = (ok b, s)
or_false (err e, s) = (ok false, s)

abbrev attempt : Exec Bool → Exec Bool
attempt m s = or_false (m s)

unfoldable pub ingest_all :
    Env → Y7Id → Times → List MessageEnvelope → List MessageId → Exec (List MessageId)
unfolding ingest_synced_envelope
ingest_all env peer t [] newly = pure newly
ingest_all env peer t (e ∷ es) newly = do
  inserted ← attempt (ingest_synced_envelope env peer e t)
  ingest_all env peer t es (if inserted then newly ++ e.message_id ∷ [] else newly)

abbrev pub last_id : List MessageEnvelope → Option MessageId
last_id es = elim (last? es) [ none ↦ none | some e ↦ some e.message_id ]

-- `n` numbers the request; the first argument counts the pages that are left.
unfoldable pub pull_loop :
    ℕ
    → Env
    → SyncNetwork
    → Y7Id
    → PeerId
    → Times
    → ℕ
    → Option MessageId
    → List MessageId
    → Exec (List MessageId)
unfolding send_sync
pull_loop zero env net y7 peer t n since newly = pure newly
pull_loop (suc pages) env net y7 peer t n since newly = do
  resp ← send_sync net n peer (pull (conversation_with env y7) since sync_pull_limit)
  elim resp [
    | ok (pulled (e ∷ es) has_more) ↦ do
      newly' ← ingest_all env y7 t (e ∷ es) newly
      if has_more
          then pull_loop pages env net y7 peer t (n + 1) (last_id (e ∷ es)) newly'
          else pure newly'
    | _ ↦ pure newly
  ]

unfoldable pub settle_all : Y7Id → List MessageId → Exec Done
settle_all peer [] = finished
settle_all peer (id ∷ ids) = do
  modify (over_db (λ db. record db { sync_queue = SyncQueue.remove db.sync_queue id peer }))
  emit (message_status_changed id synced)
  settle_all peer ids

-- What the peer reports as received is promoted and leaves the queue.
unfoldable pub promote_held : Env → Y7Id → Option MessageId → Exec Done
unfolding settle_all
promote_held env peer none = finished
promote_held env peer (some bound) = do
  result ← gets (λ s.
      Messages.promote_outbound_synced s.db.messages (conversation_with env peer) env.my_pubkey
        bound)
  modify (over_db (λ db. record db { messages = result.0 }))
  settle_all peer result.1

unfoldable pub need_pull : Option MessageId → Option MessageId → Bool
need_pull (some theirs_out) (some my_in) = ltb my_in theirs_out
need_pull (some theirs_out) none = true
need_pull none my_in = false

unfoldable pub pull_missing :
    Env → SyncNetwork → Y7Id → PeerId → Times → Option MessageId → Exec Done
unfolding pull_loop
pull_missing env net y7 peer t my_inbound = do
  newly ← pull_loop sync_max_pull_pages env net y7 peer t 1 my_inbound []
  elim newly [
    | [] ↦ finished
    | id ∷ ids ↦ do
      answer ← send_sync net 65 peer (ack (conversation_with env y7) (id ∷ ids))
      finished
  ]

abbrev pub of_conversation : ConversationId → ConversationDigest → Bool
of_conversation conv d = d.conversation_id == conv

-- What follows the header's answer.
unfoldable pub follow_header :
    Env → SyncNetwork → Y7Id → PeerId → Times → Option MessageId → Result SyncResp → Exec Done
unfolding promote_held need_pull pull_missing
follow_header env net y7 peer t my_inbound (ok (header_ack ours)) =
    elim (find (of_conversation (conversation_with env y7)) ours) [
      | none ↦ finished
      | some their ↦ do
        promote_held env y7 their.highest_inbound_msg_id
        if need_pull their.highest_outbound_msg_id my_inbound
            then pull_missing env net y7 peer t my_inbound
            else finished
    ]
follow_header env net y7 peer t my_inbound _ = finished

abbrev my_digest : Env → Y7Id → App → ConversationDigest
my_digest env y7 s = record {
  conversation_id = conversation_with env y7;
  highest_outbound_msg_id =
      Messages.highest_outbound s.db.messages (conversation_with env y7) env.my_pubkey;
  highest_inbound_msg_id =
      Messages.highest_inbound s.db.messages (conversation_with env y7) env.my_pubkey;
}

unfoldable pub kick_sync_for_peer : Env → SyncNetwork → Y7Id → PeerId → Times → Exec Done
unfolding follow_header send_sync
kick_sync_for_peer env net y7 peer t = do
  contact ← gets (λ s. Contacts.get s.db.contacts y7)
  if not (accepted_contact contact) then finished else (do
    digest ← gets (my_digest env y7)
    resp ← send_sync net 0 peer (header (digest ∷ []))
    follow_header env net y7 peer t digest.highest_inbound_msg_id resp)

-- The task that `spawn_kick_sync` starts: one reconciliation of a peer at a time. Its failure is
-- logged.
unfoldable pub kick_sync : Env → SyncNetwork → Y7Id → PeerId → Times → Exec Done
unfolding kick_sync_for_peer
kick_sync env net y7 peer t s =
    if any (λ p. p == y7) s.syncing
    then (ok y7ke.App.done, s)
    else let (result, s') =
        kick_sync_for_peer env net y7 peer t (record s { syncing = y7 ∷ s.syncing }) in
      (ok y7ke.App.done, record s' { syncing = retain (λ p. not (p == y7)) s'.syncing })
