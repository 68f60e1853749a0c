-- ===== src/Storage/Messages.antt =====
-- crates/y7ke-storage/src/dao/messages.rs: the encrypted messages, keyed by `message_id`.
pub mod Pages
pub mod Lookup
use y7ke.Prelude.{
  ℕ, zero, suc, ◌+◌, ◌-◌, ◌^◌, Bool, true, ◌&&◌, not, Option, none, some, List, ◌==◌, ltb, leb,
  find, any, take, last?, sort_by, map,
}
use y7ke.Sql.{select, update_where, insert_or_ignore}
use y7ke.Bytes.{Bytes}
use y7ke.Int.{ℤ, pos, negsuc, i64_key}
use y7ke.Ident.{Y7Id, MessageId, ConversationId}
use y7ke.Status.{MessageStatus, synced, as_i64}
use mathlib.Core.Option

pub record Message : Type 0 where
  pub message_id : MessageId
  pub conversation_id : ConversationId
  pub sender_pub : ℕ
  pub recipient_pub : ℕ
  pub timestamp_ms : ℤ
  pub status : MessageStatus
  pub payload_enc : Bytes
  pub payload_nonce : ℕ
  pub sig : ℕ
  pub inserted_at : ℕ

pub record NewMessage : Type 0 where
  pub message_id : MessageId
  pub conversation_id : ConversationId
  pub sender_pub : ℕ
  pub recipient_pub : ℕ
  pub timestamp_ms : ℤ
  pub status : MessageStatus
  pub payload_enc : Bytes
  pub payload_nonce : ℕ
  pub sig : ℕ

abbrev pub has_id : MessageId → Message → Bool
has_id id m = m.message_id == id

abbrev pub new_row : NewMessage → ℕ → Message
new_row m now = record {
  message_id = m.message_id;
  conversation_id = m.conversation_id;
  sender_pub = m.sender_pub;
  recipient_pub = m.recipient_pub;
  timestamp_ms = m.timestamp_ms;
  status = m.status;
  payload_enc = m.payload_enc;
  payload_nonce = m.payload_nonce;
  sig = m.sig;
  inserted_at = now;
}

-- Whether a row was inserted comes back.
unfoldable pub insert : List Message → NewMessage → ℕ → List Message × Bool
insert rows m now = (
  insert_or_ignore (has_id m.message_id) (new_row m now) rows,
  not (any (has_id m.message_id) rows),
)

unfoldable pub update_status : List Message → MessageId → MessageStatus → List Message
update_status rows id status = update_where (has_id id) (λ m. record m { status = status }) rows

unfoldable pub get : List Message → MessageId → Option Message
get rows id = find (has_id id) rows

-- A negative LIMIT is none.
abbrev limit_rows : ℤ → List Message → List Message
limit_rows (pos n) rows = take n rows
limit_rows (negsuc n) rows = rows

unfoldable pub list_for_conversation : List Message → ConversationId → ℤ → List Message
list_for_conversation rows conv limit =
    limit_rows limit
      (sort_by (λ m. i64_key m.timestamp_ms) (select (λ m. m.conversation_id == conv) rows))

abbrev pub by_id : Message → ℕ
by_id m = m.message_id

abbrev pub inbound : ConversationId → ℕ → Message → Bool
inbound conv recipient m = m.conversation_id == conv && m.recipient_pub == recipient

abbrev pub outbound : ConversationId → ℕ → Message → Bool
outbound conv sender m = m.conversation_id == conv && m.sender_pub == sender

abbrev pub id_of : Option Message → Option MessageId
id_of none = none
id_of (some m) = some m.message_id

unfoldable pub highest_inbound : List Message → ConversationId → ℕ → Option MessageId
highest_inbound rows conv recipient =
    id_of (last? (sort_by by_id (select (inbound conv recipient) rows)))

unfoldable pub highest_outbound : List Message → ConversationId → ℕ → Option MessageId
highest_outbound rows conv sender =
    id_of (last? (sort_by by_id (select (outbound conv sender) rows)))

abbrev pub after : Option MessageId → MessageId → Bool
after none id = true
after (some s) id = ltb s id

unfoldable pub pull_outbound_after :
    List Message → ConversationId → ℕ → Option MessageId → ℕ → List Message
pull_outbound_after rows conv sender since limit =
    take limit
      (sort_by by_id (select (λ m. outbound conv sender m && after since m.message_id) rows))

abbrev pub promotes : ConversationId → ℕ → MessageId → Message → Bool
promotes conv sender upto m =
    outbound conv sender m && leb m.message_id upto && ltb (as_i64 m.status) (as_i64 synced)

-- The new table and the ids of the rows that changed.
unfoldable pub promote_outbound_synced :
    List Message → ConversationId → ℕ → MessageId → List Message × List MessageId
promote_outbound_synced rows conv sender upto = (
  update_where (promotes conv sender upto) (λ m. record m { status = synced }) rows,
  map by_id (select (promotes conv sender upto) rows),
)
