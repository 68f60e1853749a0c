-- ===== src/Swarm/Events.antt =====
-- `handle_swarm_event` of crates/y7ke-net/src/swarm.rs and the handlers that it calls. The events of
-- libp2p that only write a log line are `ignored`.
pub mod Frames
use y7ke.Prelude.{
  ℕ, Bool, true, false, not, ◌&&◌, Option, none, some, List, [], ◌∷◌, ◌++◌, ◌==◌, any, retain,
  is_some, if◌then◌else◌,
}
use y7ke.Map
use y7ke.Map.{Map}
use y7ke.Bytes.{Bytes}
use y7ke.Status.{Result, ok, err, network, not_found, direct}
use y7ke.Addr.{Multiaddr, Protocol, p2p, p2p_circuit, connection_kind_for}
use y7ke.Addr.Equality.{same_addr}
use y7ke.Handshake.{HandshakeReq, HandshakeResp}
use y7ke.Messaging.{MessageEnvelope}
use y7ke.App.{PeerId, SyncReq, SyncResp}
use y7ke.Status.{is_lan_only}
use y7ke.EventLoop.Connections.{ConnectionId}
use y7ke.EventLoop.Dispatch.{
  NetEvent, listening, peer_discovered, established, upgraded, upgrade_failed, closed,
  handshake_received, msg_received, sync_received, nat_probe, net_error,
}
use y7ke.Swarm.{
  Slot, Answer, addrs_answer, handshake_answer, msg_answer, sync_answer, added_peer_address,
  started_providing, listened, removed_listener, Libp2p, TaskState, call, answer, emit, addrs_of,
  remember_address, remember_all, over_book,
}

-- A request carries the secret that its handler will draw.
pub data SwarmEvent : Type 0 where
  new_listen_addr : SwarmEvent
  connection_established : PeerId → ConnectionId → Bool → Multiaddr → SwarmEvent
  connection_closed : PeerId → ConnectionId → SwarmEvent
  outgoing_connection_error : SwarmEvent
  mdns_discovered mdns_expired : List (PeerId × Multiaddr) → SwarmEvent
  identify_received : PeerId → List Multiaddr → SwarmEvent
  handshake_request : PeerId → HandshakeReq → ℕ → SwarmEvent
  handshake_response : ℕ → HandshakeResp → SwarmEvent
  handshake_failed : ℕ → SwarmEvent
  msg_request : PeerId → MessageEnvelope → SwarmEvent
  msg_response : ℕ → Bool → SwarmEvent
  msg_failed : ℕ → SwarmEvent
  sync_request : PeerId → SyncReq → SwarmEvent
  sync_response : ℕ → SyncResp → SwarmEvent
  sync_failed : ℕ → SwarmEvent
  routing_updated : PeerId → List Multiaddr → SwarmEvent
  query_progressed : ℕ → Option (List PeerId) → Bool → SwarmEvent
  dcutr_succeeded : PeerId → ConnectionId → SwarmEvent
  dcutr_failed : PeerId → Bytes → SwarmEvent
  autonat_probed : Bool → SwarmEvent
  ignored : SwarmEvent

-- `/p2p` at the end is popped.
unfoldable pub pop_p2p : Multiaddr → Multiaddr
pop_p2p [] = []
pop_p2p (p2p peer ∷ []) = []
pop_p2p (p ∷ ps) = p ∷ pop_p2p ps

abbrev pub circuit_through : PeerId → Multiaddr → Multiaddr
circuit_through peer addr = pop_p2p addr ++ p2p peer ∷ p2p_circuit ∷ []

abbrev pub reserved : PeerId → TaskState → Bool
reserved peer t = any (λ p. p == peer) t.relay_reserved

-- The circuit through a bootstrap is asked for. A listener that did not start leaves no mark.
abbrev pub start_circuit : Option ℕ → PeerId → TaskState → TaskState
start_circuit none peer t = t
start_circuit (some id) peer t = record t {
  relay_reserved = peer ∷ t.relay_reserved;
  circuit_listeners = Map.put peer id t.circuit_listeners;
}

unfoldable pub reserve : Libp2p → PeerId → Bool → Multiaddr → TaskState → TaskState
unfolding pop_p2p
reserve net peer is_relayed addr t =
    if not (is_lan_only t.dial_mode)
      && not is_relayed
      && is_some (Map.get peer t.bootstrap_peers)
      && not (reserved peer t)
    then start_circuit (net.listener t.calls) peer (call (listened (circuit_through peer addr)) t)
    else t

abbrev pub drop_listener : Option ℕ → PeerId → TaskState → TaskState
drop_listener none peer t = t
drop_listener (some id) peer t = record (call (removed_listener id) t) {
  circuit_listeners = Map.remove peer t.circuit_listeners;
}

unfoldable pub forget_connection : Libp2p → PeerId → TaskState → TaskState
forget_connection net peer t =
    if is_some (Map.get peer t.bootstrap_peers)
    then drop_listener (Map.get peer t.circuit_listeners) peer
        (record t { relay_reserved = retain (λ p. not (p == peer)) t.relay_reserved })
    else if not (net.is_connected t.calls peer)
    then over_book (Map.remove peer) t
    else t

unfoldable pub learn_all : List (PeerId × Multiaddr) → TaskState → TaskState
learn_all [] t = t
learn_all ((peer, addr) ∷ rest) t =
    learn_all rest (call (added_peer_address peer addr) (over_book (remember_address peer addr) t))

unfoldable pub group_found : List (PeerId × Multiaddr) → Map (List Multiaddr) → Map (List Multiaddr)
group_found [] m = m
group_found ((peer, addr) ∷ rest) m =
    group_found rest (Map.put peer (addrs_of peer m ++ addr ∷ []) m)

unfoldable pub tell_found : Libp2p → Map (List Multiaddr) → TaskState → TaskState
tell_found net [] t = t
tell_found net ((peer, addrs) ∷ rest) t =
    tell_found net rest (emit (peer_discovered peer addrs (net.y7_id_from_peer_id peer)) t)

abbrev pub expire_from : Option (List Multiaddr) → PeerId → Multiaddr → TaskState → TaskState
expire_from none peer addr t = t
expire_from (some addrs) peer addr t =
    over_book (Map.put peer (retain (λ a. not (same_addr a addr)) addrs)) t

unfoldable pub expire_all : List (PeerId × Multiaddr) → TaskState → TaskState
expire_all [] t = t
expire_all ((peer, addr) ∷ rest) t =
    expire_all rest (expire_from (Map.get peer t.address_book) peer addr t)

unfoldable pub learn_routes : PeerId → List Multiaddr → TaskState → TaskState
learn_routes peer [] t = t
learn_routes peer (a ∷ addrs) t =
    learn_routes peer addrs
      (call (added_peer_address peer a) (over_book (remember_address peer a) t))

unfoldable pub provide_self : Libp2p → TaskState → TaskState
provide_self net t =
    if t.provided_self then t else record (call (started_providing net.local_peer_id) t) {
      provided_self = net.provides t.calls;
    }

-- A caller that waits for a peer is told its addresses and is no longer pending.
abbrev pub tell_finder : Answer → ℕ → Slot → TaskState → TaskState
tell_finder a id slot t =
    answer slot a (record t { pending_find_peer = Map.remove id t.pending_find_peer })

abbrev pub resolve_known : List Multiaddr → ℕ → Slot → TaskState → TaskState
resolve_known [] id slot t = t
resolve_known (a ∷ addrs) id slot t = tell_finder (addrs_answer (ok (a ∷ addrs))) id slot t

abbrev pub resolve_found : Option (PeerId × Slot) → ℕ → List PeerId → TaskState → TaskState
resolve_found none id providers t = t
resolve_found (some (target, slot)) id providers t =
    if any (λ p. p == target) providers
    then resolve_known (addrs_of target t.address_book) id slot t
    else t

unfoldable pub resolve_progress : Option (List PeerId) → ℕ → TaskState → TaskState
resolve_progress none id t = t
resolve_progress (some providers) id t =
    resolve_found (Map.get id t.pending_find_peer) id providers t

abbrev pub or_not_found : List Multiaddr → Result (List Multiaddr)
or_not_found [] = err not_found
or_not_found (a ∷ addrs) = ok (a ∷ addrs)

abbrev pub give_up : Option (PeerId × Slot) → ℕ → TaskState → TaskState
give_up none id t = t
give_up (some (target, slot)) id t =
    tell_finder (addrs_answer (or_not_found (addrs_of target t.address_book))) id slot t

unfoldable pub end_query : Bool → ℕ → TaskState → TaskState
end_query last id t = if last then give_up (Map.get id t.pending_find_peer) id t else t

abbrev pub answer_handshake : Option Slot → ℕ → Result HandshakeResp → TaskState → TaskState
answer_handshake none id r t = t
answer_handshake (some slot) id r t =
    answer slot (handshake_answer r)
      (record t { pending_handshake = Map.remove id t.pending_handshake })

abbrev pub answer_msg : Option Slot → ℕ → Result Bool → TaskState → TaskState
answer_msg none id r t = t
answer_msg (some slot) id r t =
    answer slot (msg_answer r) (record t { pending_msg = Map.remove id t.pending_msg })

abbrev pub answer_sync : Option Slot → ℕ → Result SyncResp → TaskState → TaskState
answer_sync none id r t = t
answer_sync (some slot) id r t =
    answer slot (sync_answer r) (record t { pending_sync = Map.remove id t.pending_sync })

unfoldable pub handle_established :
    Libp2p → PeerId → ConnectionId → Bool → Multiaddr → TaskState → TaskState
handle_established net peer id is_relayed addr t =
    let known = over_book (remember_address peer addr) t in
    let told = emit (established peer id (connection_kind_for is_relayed addr) addr) known in
    reserve net peer is_relayed addr told

unfoldable pub handle_swarm_event : Libp2p → SwarmEvent → TaskState → TaskState
unfolding group_found
handle_swarm_event net new_listen_addr t = emit listening t
handle_swarm_event net (connection_established peer id is_relayed addr) t =
    handle_established net peer id is_relayed addr t
handle_swarm_event net (connection_closed peer id) t =
    emit (closed peer id) (forget_connection net peer t)
handle_swarm_event net outgoing_connection_error t = emit net_error t
handle_swarm_event net (mdns_discovered peers) t =
    tell_found net (group_found peers []) (learn_all peers t)
handle_swarm_event net (mdns_expired peers) t = expire_all peers t
handle_swarm_event net (identify_received peer addrs) t = over_book (remember_all peer addrs) t
handle_swarm_event net (handshake_request peer request eph) t =
    emit (handshake_received peer request true eph) t
handle_swarm_event net (handshake_response id response) t =
    answer_handshake (Map.get id t.pending_handshake) id (ok response) t
handle_swarm_event net (handshake_failed id) t =
    answer_handshake (Map.get id t.pending_handshake) id (err network) t
handle_swarm_event net (msg_request peer envelope) t = emit (msg_received peer envelope true) t
handle_swarm_event net (msg_response id ack) t = answer_msg (Map.get id t.pending_msg) id (ok ack) t
handle_swarm_event net (msg_failed id) t = answer_msg (Map.get id t.pending_msg) id (err network) t
handle_swarm_event net (sync_request peer request) t = emit (sync_received peer request true) t
handle_swarm_event net (sync_response id response) t =
    answer_sync (Map.get id t.pending_sync) id (ok response) t
handle_swarm_event net (sync_failed id) t =
    answer_sync (Map.get id t.pending_sync) id (err network) t
handle_swarm_event net (routing_updated peer addrs) t = provide_self net (learn_routes peer addrs t)
handle_swarm_event net (query_progressed id found last) t =
    end_query last id (resolve_progress found id t)
handle_swarm_event net (dcutr_succeeded peer id) t = emit (upgraded peer id direct) t
handle_swarm_event net (dcutr_failed peer error) t = emit (upgrade_failed peer error) t
handle_swarm_event net (autonat_probed reachable) t = emit (nat_probe reachable) t
handle_swarm_event net ignored t = t
