-- ===== src/EventLoop/Syncing.antt =====
-- `handle_sync` and `empty_sync_resp_for` of crates/y7ke-app/src/event_loop.rs: the answers to a
-- peer that reconciles a conversation.
pub mod Scope
pub mod Pulls
use y7ke.Prelude.{
  ℕ, ◌+◌, ◌%◌, ◌^◌, Bool, true, false, not, Option, none, some, List, [], ◌∷◌, ◌==◌, if◌then◌else◌,
  length, map,
}
use y7ke.Ident.{Y7Id, MessageId, ConversationId}
use y7ke.Status.{blocked, synced, ok}
use y7ke.RateLimit.{allow_sync}
use y7ke.Storage.{Db}
use y7ke.Storage.Contacts
use y7ke.Storage.Messages
use y7ke.Storage.Messages.{Message}
use y7ke.Messaging.{MessageEnvelope}
use y7ke.App.{
  App, Env, Exec, Done, PeerId, ◌>>=◌, ◌>>◌, modify, gets, respond, sync_reply, SyncReq, header,
  pull, ack, SyncResp, header_ack, pulled, acked, ConversationDigest, conversation_with,
}
use y7ke.EventLoop.{Times}
use y7ke.EventLoop.Inbox.{has_status}

unfoldable pub empty_sync_resp_for : SyncReq → SyncResp
empty_sync_resp_for (header conversations) = header_ack []
empty_sync_resp_for (pull conv since limit) = pulled [] false
empty_sync_resp_for (ack conv ids) = acked

unfoldable pub admit_sync : PeerId → Times → Exec Bool
admit_sync peer t s =
    let (limiter, allowed) = allow_sync s.rate_limiter peer t.instant in
    (ok allowed, record s { rate_limiter = limiter })

-- A row of the table as it went over the wire.
abbrev pub to_envelope : Message → MessageEnvelope
to_envelope m = record {
  message_id = m.message_id;
  sender_pub = m.sender_pub;
  timestamp_ms = m.timestamp_ms;
  nonce = m.payload_nonce;
  ciphertext = m.payload_enc;
  sig = m.sig;
}

abbrev own_digest : Env → List Message → ConversationId → ConversationDigest
own_digest env rows conv = record {
  conversation_id = conv;
  highest_outbound_msg_id = Messages.highest_outbound rows conv env.my_pubkey;
  highest_inbound_msg_id = Messages.highest_inbound rows conv env.my_pubkey;
}

unfoldable pub digests :
    Env → List Message → ConversationId → List ConversationDigest → List ConversationDigest
digests env rows expected [] = []
digests env rows expected (cd ∷ cds) =
    let rest = digests env rows expected cds in
    if cd.conversation_id == expected then own_digest env rows expected ∷ rest else rest

-- `rows.len() as u16`
unfoldable pub pull_page : Env → List Message → ConversationId → Option MessageId → ℕ → SyncResp
pull_page env rows conv since limit =
    let page = Messages.pull_outbound_after rows conv env.my_pubkey since limit in
    pulled (map to_envelope page) (length page % 2 ^ 16 == limit)

unfoldable pub confirm : List MessageId → List Message → List Message
confirm [] rows = rows
confirm (id ∷ ids) rows = confirm ids (Messages.update_status rows id synced)

-- What the app answers to a requester that is let in, and what its table becomes.
unfoldable pub answer : Env → Y7Id → SyncReq → List Message → SyncResp × List Message
unfolding digests pull_page confirm
answer env requester (header conversations) rows =
    (header_ack (digests env rows (conversation_with env requester) conversations), rows)
answer env requester (pull conv since limit) rows =
    if conversation_with env requester == conv
    then (pull_page env rows (conversation_with env requester) since limit, rows)
    else (pulled [] false, rows)
answer env requester (ack conv ids) rows =
    if conversation_with env requester == conv then (acked, confirm ids rows) else (acked, rows)

unfoldable pub serve : Env → Y7Id → SyncReq → Bool → Exec Done
unfolding answer
serve env requester request channel s =
    let (resp, rows) = answer env requester request s.db.messages in
    respond channel (sync_reply resp) (record s { db = record (s.db) { messages = rows } })

unfoldable pub handle_sync : Env → PeerId → SyncReq → Bool → Times → Exec Done
unfolding admit_sync empty_sync_resp_for
handle_sync env peer request channel t = do
  let refusal = sync_reply (empty_sync_resp_for request)
  allowed ← admit_sync peer t
  if not allowed
      then (do
        modify (λ s. record s { rl_drops_sync = s.rl_drops_sync + 1 })
        respond channel refusal)
      else elim (env.y7_id_from_peer_id peer) [
        | none ↦ respond channel refusal
        | some requester ↦ do
          contact ← gets (λ s. Contacts.get s.db.contacts requester)
          if has_status blocked contact
              then respond channel refusal
              else serve env requester request channel
      ]
