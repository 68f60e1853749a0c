-- ===== src/Swarm/Life/Book.antt =====
-- The address book of a task.
use y7ke.Swarm.{
  Libp2p, NetCommand, TaskState, apply_dial_mode, call, check_live, dial, dial_address, dialed,
  disconnect_peer, emit, find_peer, or_empty, over_book, peer_id_from_multiaddr, remember_address,
  update_bootstraps,
}
use y7ke.Swarm.Commands.{handle_command, learn_dialed}
use y7ke.Swarm.Commands.Frames.{
  enter_internet-frame, enter_lan_only-frame, reconnect_lost_bootstraps-frame,
  replace_bootstraps-frame,
}
use y7ke.Swarm.Events.{
  SwarmEvent, connection_closed, connection_established, expire_all, expire_from, forget_connection,
  group_found, handle_established, handle_swarm_event, handshake_failed, handshake_response,
  identify_received, learn_all, learn_routes, mdns_discovered, mdns_expired, msg_failed,
  msg_response, query_progressed, routing_updated, sync_failed, sync_response,
}
use y7ke.Swarm.Events.Frames.{tell_found-frame}
use y7ke.Swarm.Life.{Round, Runs, command, reconnect_tick, round, spawned, swarm_event, tick}
use y7ke.Swarm.Life.Frames.{spawn_swarm_with_bootstraps-frame}
use y7ke.EventLoop.Dispatch.{established}
use y7ke.Addr.{Multiaddr, connection_kind_for}
use y7ke.App.{PeerId}
use y7ke.Status.{DialMode, internet_mode, is_lan_only, lan_only}
use y7ke.Map
use y7ke.Map.{All-put, All-remove}
use y7ke.Status.{err, network, ok}
use y7ke.Swarm.Life.Short.{
  IsBook, IsShort, addrs_of-IsShort, prune_relayed-IsBook, remember_address-IsBook,
  remember_all-IsBook, retain-IsShort,
}
use y7ke.Swarm.Life.Kept.{
  answer_handshake-book, answer_live-book, answer_msg-book, answer_sync-book, dial_y7-book,
  disconnect_known-book, drop_listener-book, find_y7-book, provide_self-book, query-book,
  report_failed-book, reserve-book,
}
use y7ke.Prelude.{
  Bool-cases, List, Option, [], inl, inr, is_some, none, not, retain, some, ◌==◌, ◌∷◌,
}

abbrev HasBook : TaskState → Type 0
HasBook t = IsBook t.address_book

learn_all-IsBook :
    (peers : List (PeerId × Multiaddr)) (t : TaskState) → HasBook t → HasBook (learn_all peers t)
unfolding learn_all
learn_all-IsBook [] t h = h
learn_all-IsBook ((peer, addr) ∷ rest) t h =
    learn_all-IsBook rest _ (remember_address-IsBook peer addr t.address_book h)

learn_routes-IsBook :
    (peer : PeerId) (addrs : List Multiaddr) (t : TaskState)
    → HasBook t
    → HasBook (learn_routes peer addrs t)
unfolding learn_routes
learn_routes-IsBook peer [] t h = h
learn_routes-IsBook peer (a ∷ addrs) t h =
    learn_routes-IsBook peer addrs _ (remember_address-IsBook peer a t.address_book h)

expire_from-IsBook :
    (old : Option (List Multiaddr)) (peer : PeerId) (addr : Multiaddr) (t : TaskState)
    → IsShort (or_empty old)
    → HasBook t
    → HasBook (expire_from old peer addr t)
expire_from-IsBook none peer addr t s h = h
expire_from-IsBook (some addrs) peer addr t s h =
    All-put IsShort peer _ t.address_book h (retain-IsShort _ addrs s)

expire_all-IsBook :
    (peers : List (PeerId × Multiaddr)) (t : TaskState) → HasBook t → HasBook (expire_all peers t)
unfolding expire_all
expire_all-IsBook [] t h = h
expire_all-IsBook ((peer, addr) ∷ rest) t h =
    let old = Map.get peer t.address_book in
    expire_all-IsBook rest (expire_from old peer addr t)
      (expire_from-IsBook old peer addr t (addrs_of-IsShort peer t.address_book h) h)

learn_dialed-IsBook :
    (peer : Option PeerId) (addr : Multiaddr) (t : TaskState)
    → HasBook t
    → HasBook (learn_dialed peer addr t)
learn_dialed-IsBook none addr t h = h
learn_dialed-IsBook (some peer) addr t h = remember_address-IsBook peer addr t.address_book h

handle_command-IsBook :
    (net : Libp2p) (c : NetCommand) (t : TaskState) → HasBook t → HasBook (handle_command net c t)
unfolding handle_command
handle_command-IsBook net (apply_dial_mode lan_only) t h =
    let lan = record t { dial_mode = lan_only } in
    rw (enter_lan_only-frame lan).address_book (prune_relayed-IsBook t.address_book h)
handle_command-IsBook net (apply_dial_mode internet_mode) t h =
    let open_task = record t { dial_mode = internet_mode } in
    rw (enter_internet-frame net open_task).address_book h
handle_command-IsBook net (update_bootstraps addrs) t h =
    rw (replace_bootstraps-frame addrs t).address_book h
handle_command-IsBook net (dial_address addr) t h =
    let learned = learn_dialed (peer_id_from_multiaddr addr) addr t in
    rw (report_failed-book (net.dial_outcome learned.calls) (call (dialed addr) learned))
      (learn_dialed-IsBook (peer_id_from_multiaddr addr) addr t h)
handle_command-IsBook net (dial y7 slot) t h =
    rw (dial_y7-book net (net.peer_id_from_y7 y7) slot t) h
handle_command-IsBook net (find_peer y7 slot) t h =
    rw (find_y7-book net (net.peer_id_from_y7 y7) slot t) h
handle_command-IsBook net (disconnect_peer y7) t h =
    rw (disconnect_known-book (net.peer_id_from_y7 y7) t) h
handle_command-IsBook net (check_live y7 slot) t h =
    rw (answer_live-book net (net.peer_id_from_y7 y7) slot t) h
handle_command-IsBook net c t h = h

forget_connection-IsBook :
    (net : Libp2p) (peer : PeerId) (t : TaskState)
    → HasBook t
    → HasBook (forget_connection net peer t)
unfolding forget_connection
forget_connection-IsBook net peer t h =
    elim (Bool-cases (is_some (Map.get peer t.bootstrap_peers))) [
      | inl e ↦ rw e (
          rw
            (drop_listener-book (Map.get peer t.circuit_listeners) peer
              (record t { relay_reserved = retain (λ p. not (p == peer)) t.relay_reserved }))
            h)
      | inr e ↦ rw e (elim (Bool-cases (net.is_connected t.calls peer)) [
        | inl c ↦ rw c h
        | inr c ↦ rw c (All-remove IsShort peer t.address_book h)
      ])
    ]

handle_swarm_event-IsBook :
    (net : Libp2p) (e : SwarmEvent) (t : TaskState)
    → HasBook t
    → HasBook (handle_swarm_event net e t)
unfolding handle_swarm_event handle_established
handle_swarm_event-IsBook net (connection_established peer id is_relayed addr) t h =
    let known = over_book (remember_address peer addr) t in
    let told = emit (established peer id (connection_kind_for is_relayed addr) addr) known in
    rw (reserve-book net peer is_relayed addr told)
      (remember_address-IsBook peer addr t.address_book h)
handle_swarm_event-IsBook net (connection_closed peer id) t h =
    forget_connection-IsBook net peer t h
handle_swarm_event-IsBook net (mdns_discovered peers) t h =
    rw (tell_found-frame net (group_found peers []) (learn_all peers t)).1
      (learn_all-IsBook peers t h)
handle_swarm_event-IsBook net (mdns_expired peers) t h = expire_all-IsBook peers t h
handle_swarm_event-IsBook net (identify_received peer addrs) t h =
    remember_all-IsBook peer addrs t.address_book h
handle_swarm_event-IsBook net (routing_updated peer addrs) t h =
    rw (provide_self-book net (learn_routes peer addrs t)) (learn_routes-IsBook peer addrs t h)
handle_swarm_event-IsBook net (query_progressed id found last) t h =
    rw (query-book last found id t) h
handle_swarm_event-IsBook net (handshake_response id response) t h =
    rw (answer_handshake-book (Map.get id t.pending_handshake) id (ok response) t) h
handle_swarm_event-IsBook net (handshake_failed id) t h =
    rw (answer_handshake-book (Map.get id t.pending_handshake) id (err network) t) h
handle_swarm_event-IsBook net (msg_response id b) t h =
    rw (answer_msg-book (Map.get id t.pending_msg) id (ok b) t) h
handle_swarm_event-IsBook net (msg_failed id) t h =
    rw (answer_msg-book (Map.get id t.pending_msg) id (err network) t) h
handle_swarm_event-IsBook net (sync_response id response) t h =
    rw (answer_sync-book (Map.get id t.pending_sync) id (ok response) t) h
handle_swarm_event-IsBook net (sync_failed id) t h =
    rw (answer_sync-book (Map.get id t.pending_sync) id (err network) t) h
handle_swarm_event-IsBook net e t h = h

Round-IsBook : {t u : TaskState} → Round t u → HasBook t → HasBook u
unfolding reconnect_tick
Round-IsBook (swarm_event net e t) h = handle_swarm_event-IsBook net e t h
Round-IsBook (command net c t) h = handle_command-IsBook net c t h
Round-IsBook (tick net t) h = elim (Bool-cases (is_lan_only t.dial_mode)) [
  | inl e ↦ rw e h
  | inr e ↦ rw e (rw (reconnect_lost_bootstraps-frame net t.bootstrap_peers t).address_book h)
]

-- Whatever commands, events and ticks a task has seen since it was spawned, its address book has at
-- most 16 addresses of each peer, and none of them twice.
pub Runs-IsBook :
    (net : Libp2p) (bootstraps : List Multiaddr) (mode : DialMode) (t : TaskState)
    → Runs net bootstraps mode t
    → IsBook t.address_book
Runs-IsBook net bootstraps mode t spawned =
    rw (spawn_swarm_with_bootstraps-frame net bootstraps mode).1 tt
Runs-IsBook net bootstraps mode t (round r step) =
    Round-IsBook step (Runs-IsBook net bootstraps mode _ r)
