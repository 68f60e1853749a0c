-- ===== src/Swarm/Commands.antt =====
-- `handle_command` and `reconnect_lost_bootstraps` of crates/y7ke-net/src/swarm.rs. Of the outcome
-- of a response to a request only a log line depends.
pub mod Frames
use y7ke.Prelude.{
  ℕ, Bool, true, false, not, ◌||◌, Option, none, some, List, [], ◌∷◌, is_some, if◌then◌else◌,
}
use y7ke.Map
use y7ke.Map.{Map}
use y7ke.Ident.{Y7Id}
use y7ke.Status.{ok, err, network}
use y7ke.Addr.{Multiaddr}
use y7ke.App.{PeerId}
use y7ke.Status.{DialMode, lan_only, internet_mode, is_lan_only}
use y7ke.EventLoop.Dispatch.{net_error}
use y7ke.Swarm.{
  Slot, NetCommand, dial, dial_address, find_peer, send_handshake, send_msg, send_sync,
  respond_handshake, respond_msg, respond_sync, update_bootstraps, check_live, disconnect_peer,
  apply_dial_mode, shutdown, dial_answer, live_answer, addrs_answer, dialed_peer, dialed,
  added_peer_address, kad_added, kad_bootstrapped, kad_serving, got_providers, removed_listener,
  disconnected, requested_handshake, requested_msg, requested_sync, responded_handshake,
  responded_msg, responded_sync, DialOutcome, dial_issued, condition_false, no_addresses,
  dial_failed, Libp2p, TaskState, call, answer, emit, addrs_of, remember_address, over_book,
  peer_id_from_multiaddr, without_relayed, group_bootstraps,
}

-- The addresses that a dial may use: in LanOnly none through a relay.
unfoldable pub allowed_addrs : PeerId → TaskState → List Multiaddr
allowed_addrs peer t =
    let addrs = addrs_of peer t.address_book in
    if is_lan_only t.dial_mode then without_relayed addrs else addrs

abbrev pub answer_dial : DialOutcome → Slot → TaskState → TaskState
answer_dial dial_issued slot t = answer slot (dial_answer (ok true)) t
answer_dial condition_false slot t = answer slot (dial_answer (ok true)) t
answer_dial no_addresses slot t = answer slot (dial_answer (ok false)) t
answer_dial dial_failed slot t = answer slot (dial_answer (ok true)) (emit net_error t)

abbrev pub dial_all : Libp2p → PeerId → List Multiaddr → Slot → TaskState → TaskState
dial_all net peer [] slot t = answer slot (dial_answer (ok false)) t
dial_all net peer (a ∷ addrs) slot t =
    let outcome = net.dial_outcome t.calls in
    answer_dial outcome slot (call (dialed_peer peer (a ∷ addrs)) t)

abbrev pub dial_y7 : Libp2p → Option PeerId → Slot → TaskState → TaskState
dial_y7 net none slot t = answer slot (dial_answer (err network)) t
dial_y7 net (some peer) slot t = dial_all net peer (allowed_addrs peer t) slot t

abbrev pub find_known : Libp2p → PeerId → List Multiaddr → Slot → TaskState → TaskState
find_known net peer (a ∷ addrs) slot t = answer slot (addrs_answer (ok (a ∷ addrs))) t
find_known net peer [] slot t =
    let id = net.query_id t.calls in
    record (call (got_providers peer) t) {
      pending_find_peer = Map.put id (peer, slot) t.pending_find_peer;
    }

abbrev pub find_y7 : Libp2p → Option PeerId → Slot → TaskState → TaskState
find_y7 net none slot t = answer slot (addrs_answer (err network)) t
find_y7 net (some peer) slot t = find_known net peer (addrs_of peer t.address_book) slot t

abbrev pub learn_dialed : Option PeerId → Multiaddr → TaskState → TaskState
learn_dialed none addr t = t
learn_dialed (some peer) addr t =
    call (added_peer_address peer addr) (over_book (remember_address peer addr) t)

abbrev pub report_failed : DialOutcome → TaskState → TaskState
report_failed dial_issued t = t
report_failed condition_false t = emit net_error t
report_failed no_addresses t = emit net_error t
report_failed dial_failed t = emit net_error t

abbrev pub dial_multiaddr : Libp2p → Multiaddr → TaskState → TaskState
dial_multiaddr net addr t = report_failed (net.dial_outcome t.calls) (call (dialed addr) t)

unfoldable pub seed_kad : PeerId → List Multiaddr → TaskState → TaskState
seed_kad peer [] t = t
seed_kad peer (a ∷ addrs) t = seed_kad peer addrs (call (kad_added peer a) t)

-- A dial of a bootstrap: what libp2p answers to it is logged only.
unfoldable pub dial_new : Map (List Multiaddr) → Map (List Multiaddr) → TaskState → TaskState
unfolding seed_kad
dial_new known [] t = t
dial_new known ((peer, addrs) ∷ next) t = dial_new known next (
    if is_some (Map.get peer known) || is_lan_only t.dial_mode
    then t
    else call (dialed_peer peer addrs) (seed_kad peer addrs t))

unfoldable pub reconnect_lost_bootstraps : Libp2p → Map (List Multiaddr) → TaskState → TaskState
reconnect_lost_bootstraps net [] t = t
reconnect_lost_bootstraps net ((peer, addrs) ∷ rest) t =
    reconnect_lost_bootstraps net rest
      (if net.is_connected t.calls peer then t else call (dialed_peer peer addrs) t)

abbrev pub bootstrap_kad : TaskState → TaskState
bootstrap_kad t = elim t.bootstrap_peers [ [] ↦ t | p ∷ rest ↦ call kad_bootstrapped t ]

unfoldable pub replace_bootstraps : List Multiaddr → TaskState → TaskState
unfolding dial_new
replace_bootstraps addrs t =
    let next = group_bootstraps addrs [] in
    let dialed = record (dial_new t.bootstrap_peers next t) { bootstrap_peers = next } in
    if is_lan_only t.dial_mode then dialed else bootstrap_kad dialed

unfoldable pub remove_listeners : Map ℕ → TaskState → TaskState
remove_listeners [] t = t
remove_listeners ((peer, id) ∷ rest) t = remove_listeners rest (call (removed_listener id) t)

unfoldable pub disconnect_all : Map (List Multiaddr) → TaskState → TaskState
disconnect_all [] t = t
disconnect_all ((peer, addrs) ∷ rest) t = disconnect_all rest (call (disconnected peer) t)

unfoldable pub seed_all : Map (List Multiaddr) → TaskState → TaskState
unfolding seed_kad
seed_all [] t = t
seed_all ((peer, addrs) ∷ rest) t = seed_all rest (seed_kad peer addrs t)

-- The two passes over the address book: the relayed addresses go, then the empty entries.
unfoldable pub prune_relayed : Map (List Multiaddr) → Map (List Multiaddr)
prune_relayed [] = []
prune_relayed ((peer, addrs) ∷ book) =
    let rest = prune_relayed book in
    elim (without_relayed addrs) [ [] ↦ rest | a ∷ kept ↦ (peer, a ∷ kept) ∷ rest ]

unfoldable pub enter_lan_only : TaskState → TaskState
unfolding remove_listeners disconnect_all
enter_lan_only t =
    let quiet = record (remove_listeners t.circuit_listeners t) {
      circuit_listeners = [];
      relay_reserved = [];
      address_book = prune_relayed t.address_book;
    } in
    let alone = disconnect_all t.bootstrap_peers quiet in
    record (call (kad_serving false) alone) { provided_self = false }

unfoldable pub enter_internet : Libp2p → TaskState → TaskState
unfolding seed_all
enter_internet net t =
    let seeded = seed_all t.bootstrap_peers (call (kad_serving true) t) in
    bootstrap_kad (reconnect_lost_bootstraps net t.bootstrap_peers seeded)

abbrev pub enter : Libp2p → DialMode → TaskState → TaskState
enter net lan_only t = enter_lan_only t
enter net internet_mode t = enter_internet net t

abbrev pub answer_live : Libp2p → Option PeerId → Slot → TaskState → TaskState
answer_live net none slot t = answer slot (live_answer (err network)) t
answer_live net (some peer) slot t =
    answer slot (live_answer (ok (net.is_connected t.calls peer))) t

abbrev pub disconnect_known : Option PeerId → TaskState → TaskState
disconnect_known none t = t
disconnect_known (some peer) t = call (disconnected peer) t

unfoldable pub handle_command : Libp2p → NetCommand → TaskState → TaskState
handle_command net (dial y7 slot) t = dial_y7 net (net.peer_id_from_y7 y7) slot t
handle_command net (find_peer y7 slot) t = find_y7 net (net.peer_id_from_y7 y7) slot t
handle_command net (dial_address addr) t =
    dial_multiaddr net addr (learn_dialed (peer_id_from_multiaddr addr) addr t)
handle_command net (send_handshake peer request slot) t =
    let id = net.request_id t.calls in
    record (call (requested_handshake peer request) t) {
      pending_handshake = Map.put id slot t.pending_handshake;
    }
handle_command net (send_msg peer request slot) t =
    let id = net.request_id t.calls in
    record (call (requested_msg peer request) t) { pending_msg = Map.put id slot t.pending_msg }
handle_command net (send_sync peer request slot) t =
    let id = net.request_id t.calls in
    record (call (requested_sync peer request) t) { pending_sync = Map.put id slot t.pending_sync }
handle_command net (respond_handshake channel response) t =
    call (responded_handshake channel response) t
handle_command net (respond_msg channel response) t = call (responded_msg channel response) t
handle_command net (respond_sync channel response) t = call (responded_sync channel response) t
handle_command net (update_bootstraps addrs) t = replace_bootstraps addrs t
handle_command net (apply_dial_mode mode) t = enter net mode (record t { dial_mode = mode })
handle_command net (check_live y7 slot) t = answer_live net (net.peer_id_from_y7 y7) slot t
handle_command net (disconnect_peer y7) t = disconnect_known (net.peer_id_from_y7 y7) t
handle_command net shutdown t = t
