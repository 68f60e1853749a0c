-- ===== src/Swarm/Life/Kept.antt =====
-- What leaves the address book as it was.
use y7ke.Swarm.{DialOutcome, Libp2p, Slot, TaskState}
use y7ke.Swarm.Commands.{answer_live, dial_y7, disconnect_known, find_y7, report_failed}
use y7ke.Swarm.Events.{
  answer_handshake, answer_msg, answer_sync, drop_listener, end_query, provide_self, reserve,
  resolve_progress,
}
use y7ke.Addr.{Multiaddr}
use y7ke.App.{PeerId, SyncResp}
use y7ke.Status.{Result}
use y7ke.Handshake.{HandshakeResp}
use y7ke.Prelude.{Bool, List, Option, arith, ℕ, ◌≡◌}

pub report_failed-book :
    (o : DialOutcome) (t : TaskState) → (report_failed o t).address_book ≡ t.address_book
report_failed-book o t = ground arith

pub dial_y7-book :
    (net : Libp2p) (peer : Option PeerId) (slot : Slot) (t : TaskState)
    → (dial_y7 net peer slot t).address_book ≡ t.address_book
dial_y7-book net peer slot t = ground arith

pub find_y7-book :
    (net : Libp2p) (peer : Option PeerId) (slot : Slot) (t : TaskState)
    → (find_y7 net peer slot t).address_book ≡ t.address_book
find_y7-book net peer slot t = ground arith

pub disconnect_known-book :
    (peer : Option PeerId) (t : TaskState) → (disconnect_known peer t).address_book ≡ t.address_book
disconnect_known-book peer t = ground arith

pub answer_live-book :
    (net : Libp2p) (peer : Option PeerId) (slot : Slot) (t : TaskState)
    → (answer_live net peer slot t).address_book ≡ t.address_book
answer_live-book net peer slot t = ground arith

pub drop_listener-book :
    (id : Option ℕ) (peer : PeerId) (t : TaskState)
    → (drop_listener id peer t).address_book ≡ t.address_book
drop_listener-book id peer t = ground arith

pub reserve-book :
    (net : Libp2p) (peer : PeerId) (is_relayed : Bool) (addr : Multiaddr) (t : TaskState)
    → (reserve net peer is_relayed addr t).address_book ≡ t.address_book
unfolding reserve
reserve-book net peer is_relayed addr t = ground arith

pub provide_self-book :
    (net : Libp2p) (t : TaskState) → (provide_self net t).address_book ≡ t.address_book
unfolding provide_self
provide_self-book net t = ground arith

pub query-book :
    (last : Bool) (found : Option (List PeerId)) (id : ℕ) (t : TaskState)
    → (end_query last id (resolve_progress found id t)).address_book ≡ t.address_book
unfolding end_query resolve_progress
query-book last found id t = ground arith

pub answer_handshake-book :
    (slot : Option Slot) (id : ℕ) (r : Result HandshakeResp) (t : TaskState)
    → (answer_handshake slot id r t).address_book ≡ t.address_book
answer_handshake-book slot id r t = ground arith

pub answer_msg-book :
    (slot : Option Slot) (id : ℕ) (r : Result Bool) (t : TaskState)
    → (answer_msg slot id r t).address_book ≡ t.address_book
answer_msg-book slot id r t = ground arith

pub answer_sync-book :
    (slot : Option Slot) (id : ℕ) (r : Result SyncResp) (t : TaskState)
    → (answer_sync slot id r t).address_book ≡ t.address_book
answer_sync-book slot id r t = ground arith
