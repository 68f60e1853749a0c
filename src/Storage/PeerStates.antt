-- ===== src/Storage/PeerStates.antt =====
-- crates/y7ke-storage/src/dao/peer_state.rs: last addresses and sync marks of each peer.
use y7ke.Prelude.{ℕ, Bool, Option, none, some, List, ◌==◌, find}
use y7ke.Sql.{upsert}
use y7ke.Bytes.{Bytes}
use y7ke.Ident.{Y7Id, MessageId}

pub record PeerState : Type 0 where
  pub peer_y7_id : Y7Id
  pub last_addrs_json : Option Bytes
  pub last_seen_at : Option ℕ
  pub highest_seen_message_id : Option MessageId
  pub highest_sent_message_id : Option MessageId

abbrev pub has_peer : Y7Id → PeerState → Bool
has_peer peer p = p.peer_y7_id == peer

abbrev fresh : Y7Id → PeerState
fresh peer = record {
  peer_y7_id = peer;
  last_addrs_json = none;
  last_seen_at = none;
  highest_seen_message_id = none;
  highest_sent_message_id = none;
}

unfoldable pub get : List PeerState → Y7Id → Option PeerState
get rows peer = find (has_peer peer) rows

unfoldable pub upsert_seen : List PeerState → Y7Id → Option Bytes → ℕ → List PeerState
upsert_seen rows peer addrs now =
    upsert (has_peer peer)
      (record (fresh peer) { last_addrs_json = addrs; last_seen_at = some now })
      (λ p. record p { last_addrs_json = addrs; last_seen_at = some now }) rows

unfoldable pub set_high_water_inbound : List PeerState → Y7Id → MessageId → List PeerState
set_high_water_inbound rows peer id =
    upsert (has_peer peer) (record (fresh peer) { highest_seen_message_id = some id })
      (λ p. record p { highest_seen_message_id = some id }) rows

unfoldable pub set_high_water_outbound : List PeerState → Y7Id → MessageId → List PeerState
set_high_water_outbound rows peer id =
    upsert (has_peer peer) (record (fresh peer) { highest_sent_message_id = some id })
      (λ p. record p { highest_sent_message_id = some id }) rows
