-- ===== src/Swarm.antt =====
-- The task that owns the swarm: `TaskState` of crates/y7ke-net/src/swarm.rs and the commands of
-- crates/y7ke-net/src/handle.rs. A PeerId, the id of a request, a query or a listener and a one-shot
-- channel of a caller are numbers.
-- libp2p is outside: the calls of it are a log, and what it answers is a parameter that each step of
-- the task is given anew.
pub mod Commands
pub mod Events
pub mod Life
pub mod Grouping
pub mod Finding
pub mod Relay
pub mod Handle
mod Tests
use y7ke.Prelude.{
  ℕ, Bool, true, false, not, ◌||◌, Option, none, some, List, [], ◌∷◌, ◌++◌, ◌==◌, any, retain, ltb,
  length, drop, if◌then◌else◌,
}
use y7ke.Map
use y7ke.Map.{Map}
use y7ke.Bytes.{Bytes}
use y7ke.Ident.{Y7Id}
use y7ke.Status.{Result}
use y7ke.Addr.{Multiaddr, Protocol, p2p, is_circuit_hop}
use y7ke.Addr.Equality.{contains}
use y7ke.Handshake.{HandshakeReq, HandshakeResp}
use y7ke.Messaging.{MessageEnvelope}
use y7ke.App.{PeerId, SyncReq, SyncResp}
use y7ke.Status.{DialMode}
use y7ke.EventLoop.Dispatch.{NetEvent}

abbrev pub Slot : Type 0
Slot = ℕ

pub data NetCommand : Type 0 where
  dial : Y7Id → Slot → NetCommand
  dial_address : Multiaddr → NetCommand
  find_peer : Y7Id → Slot → NetCommand
  send_handshake : PeerId → HandshakeReq → Slot → NetCommand
  send_msg : PeerId → MessageEnvelope → Slot → NetCommand
  send_sync : PeerId → SyncReq → Slot → NetCommand
  respond_handshake : ℕ → HandshakeResp → NetCommand
  respond_msg : ℕ → Bool → NetCommand
  respond_sync : ℕ → SyncResp → NetCommand
  update_bootstraps : List Multiaddr → NetCommand
  check_live : Y7Id → Slot → NetCommand
  disconnect_peer : Y7Id → NetCommand
  apply_dial_mode : DialMode → NetCommand
  shutdown : NetCommand

-- What a caller's channel is sent.
pub data Answer : Type 0 where
  dial_answer live_answer : Result Bool → Answer
  addrs_answer : Result (List Multiaddr) → Answer
  handshake_answer : Result HandshakeResp → Answer
  msg_answer : Result Bool → Answer
  sync_answer : Result SyncResp → Answer

-- The calls of libp2p. A dial of a peer carries its addresses, and the condition that there is no
-- connection and no dial in flight.
pub data Call : Type 0 where
  dialed_peer : PeerId → List Multiaddr → Call
  dialed : Multiaddr → Call
  added_peer_address kad_added : PeerId → Multiaddr → Call
  kad_bootstrapped : Call
  kad_serving : Bool → Call
  got_providers : PeerId → Call
  started_providing : PeerId → Call
  listened : Multiaddr → Call
  removed_listener : ℕ → Call
  disconnected : PeerId → Call
  requested_handshake : PeerId → HandshakeReq → Call
  requested_msg : PeerId → MessageEnvelope → Call
  requested_sync : PeerId → SyncReq → Call
  responded_handshake : ℕ → HandshakeResp → Call
  responded_msg : ℕ → Bool → Call
  responded_sync : ℕ → SyncResp → Call

pub data DialOutcome : Type 0 where
  dial_issued condition_false no_addresses dial_failed : DialOutcome

-- What libp2p answers in one step, in which it may look at the calls made so far.
pub record Libp2p : Type 0 where
  pub dial_outcome : List Call → DialOutcome
  pub is_connected : List Call → PeerId → Bool
  pub listener : List Call → Option ℕ
  pub provides : List Call → Bool
  pub request_id : List Call → ℕ
  pub query_id : List Call → ℕ
  pub local_peer_id : PeerId
  pub peer_id_from_y7 : Y7Id → Option PeerId
  pub y7_id_from_peer_id : PeerId → Option Y7Id

pub record TaskState : Type 0 where
  pub address_book : Map (List Multiaddr)
  pub pending_handshake : Map Slot
  pub pending_msg : Map Slot
  pub pending_sync : Map Slot
  pub pending_find_peer : Map (PeerId × Slot)
  pub provided_self : Bool
  pub bootstrap_peers : Map (List Multiaddr)
  pub relay_reserved : List PeerId
  pub circuit_listeners : Map ℕ
  pub dial_mode : DialMode
  pub calls : List Call
  pub answers : List (Slot × Answer)
  pub events : List NetEvent

abbrev pub call : Call → TaskState → TaskState
call c t = record t { calls = t.calls ++ c ∷ [] }

abbrev pub answer : Slot → Answer → TaskState → TaskState
answer slot a t = record t { answers = t.answers ++ (slot, a) ∷ [] }

abbrev pub emit : NetEvent → TaskState → TaskState
emit e t = record t { events = t.events ++ e ∷ [] }

abbrev pub or_empty : Option (List Multiaddr) → List Multiaddr
or_empty none = []
or_empty (some addrs) = addrs

abbrev pub addrs_of : PeerId → Map (List Multiaddr) → List Multiaddr
addrs_of peer book = or_empty (Map.get peer book)

abbrev pub max_addrs_per_peer : ℕ
max_addrs_per_peer = 16

-- The oldest address goes where the list has grown too long.
unfoldable pub push_capped : Multiaddr → List Multiaddr → List Multiaddr
push_capped addr addrs =
    let grown = addrs ++ addr ∷ [] in
    if ltb max_addrs_per_peer (length grown) then drop 1 grown else grown

unfoldable pub remember_address : PeerId → Multiaddr → Map (List Multiaddr) → Map (List Multiaddr)
unfolding push_capped
remember_address peer addr book =
    let addrs = addrs_of peer book in
    if contains addr addrs then book else Map.put peer (push_capped addr addrs) book

unfoldable pub remember_all : PeerId → List Multiaddr → Map (List Multiaddr) → Map (List Multiaddr)
remember_all peer [] book = book
remember_all peer (a ∷ addrs) book = remember_all peer addrs (remember_address peer a book)

abbrev pub over_book : (Map (List Multiaddr) → Map (List Multiaddr)) → TaskState → TaskState
over_book f t = record t { address_book = f t.address_book }

unfoldable pub peer_id_from_multiaddr : Multiaddr → Option PeerId
peer_id_from_multiaddr [] = none
peer_id_from_multiaddr (p2p peer ∷ ps) = some peer
peer_id_from_multiaddr (_ ∷ ps) = peer_id_from_multiaddr ps

abbrev pub is_relayed_addr : Multiaddr → Bool
is_relayed_addr addr = any is_circuit_hop addr

abbrev pub without_relayed : List Multiaddr → List Multiaddr
without_relayed addrs = retain (λ a. not (is_relayed_addr a)) addrs

abbrev pub push_new : Multiaddr → List Multiaddr → List Multiaddr
push_new addr addrs = if contains addr addrs then addrs else addrs ++ addr ∷ []

abbrev pub group_one : Option PeerId → Multiaddr → Map (List Multiaddr) → Map (List Multiaddr)
group_one none addr m = m
group_one (some peer) addr m = Map.put peer (push_new addr (addrs_of peer m)) m

-- The addresses of each PeerId, each once; those with no PeerId are left out.
unfoldable pub group_bootstraps : List Multiaddr → Map (List Multiaddr) → Map (List Multiaddr)
group_bootstraps [] m = m
group_bootstraps (a ∷ addrs) m = group_bootstraps addrs (group_one (peer_id_from_multiaddr a) a m)
