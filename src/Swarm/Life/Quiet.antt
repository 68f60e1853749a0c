-- ===== src/Swarm/Life/Quiet.antt =====
-- The task in the mode LanOnly.
use y7ke.Swarm.{
  Libp2p, NetCommand, TaskState, apply_dial_mode, emit, over_book, remember_address,
  update_bootstraps,
}
use y7ke.Swarm.Commands.{handle_command}
use y7ke.Swarm.Commands.Frames.{
  enter_internet-frame, enter_lan_only-frame, reconnect_lost_bootstraps-frame,
  replace_bootstraps-frame,
}
use y7ke.Swarm.Events.{
  SwarmEvent, connection_closed, connection_established, end_query, forget_connection, group_found,
  handle_established, handle_swarm_event, learn_all, mdns_discovered, mdns_expired, provide_self,
  query_progressed, reserve, resolve_progress, routing_updated,
}
use y7ke.Swarm.Events.Frames.{
  expire_all-frame, learn_all-frame, learn_routes-frame, tell_found-frame,
}
use y7ke.Swarm.Life.{Round, Runs, command, reconnect_tick, round, spawned, swarm_event, tick}
use y7ke.Swarm.Life.Frames.{spawn_swarm_with_bootstraps-frame}
use y7ke.EventLoop.Dispatch.{established}
use y7ke.Addr.{Multiaddr, connection_kind_for}
use y7ke.App.{PeerId}
use y7ke.Status.{DialMode, internet_mode, lan_only}
use y7ke.Map
use y7ke.Prelude.{Bool, List, [], arith, ◌≡◌}

-- No circuit listens and no relay holds a reservation.
pub record IsQuiet (t : TaskState) : Type 0 where
  pub no_listener : t.circuit_listeners ≡ []
  pub no_reservation : t.relay_reserved ≡ []

abbrev pub KeepsQuiet : TaskState → Type 0
KeepsQuiet t = t.dial_mode ≡ lan_only → IsQuiet t

handle_command-KeepsQuiet :
    (net : Libp2p) (c : NetCommand) (t : TaskState)
    → KeepsQuiet t
    → KeepsQuiet (handle_command net c t)
unfolding handle_command
handle_command-KeepsQuiet net (apply_dial_mode lan_only) t q e =
    ground (arith, enter_lan_only-frame (record t { dial_mode = lan_only }))
handle_command-KeepsQuiet net (apply_dial_mode internet_mode) t q e =
    ground (arith, enter_internet-frame net (record t { dial_mode = internet_mode }))
handle_command-KeepsQuiet net (update_bootstraps addrs) t q e =
    ground (arith, q, replace_bootstraps-frame addrs t)
handle_command-KeepsQuiet net c t q e = ground (arith, q)

reserve-KeepsQuiet :
    (net : Libp2p) (peer : PeerId) (is_relayed : Bool) (addr : Multiaddr) (t : TaskState)
    → KeepsQuiet t
    → KeepsQuiet (reserve net peer is_relayed addr t)
unfolding reserve
reserve-KeepsQuiet net peer is_relayed addr t q e = ground (arith, q)

forget_connection-KeepsQuiet :
    (net : Libp2p) (peer : PeerId) (t : TaskState)
    → KeepsQuiet t
    → KeepsQuiet (forget_connection net peer t)
unfolding forget_connection Map.get Map.remove
forget_connection-KeepsQuiet net peer t q e = ground (arith, q)

handle_swarm_event-KeepsQuiet :
    (net : Libp2p) (e : SwarmEvent) (t : TaskState)
    → KeepsQuiet t
    → KeepsQuiet (handle_swarm_event net e t)
unfolding handle_swarm_event handle_established provide_self resolve_progress end_query
handle_swarm_event-KeepsQuiet net (connection_established peer id is_relayed addr) t q e =
    let known = over_book (remember_address peer addr) t in
    reserve-KeepsQuiet net peer is_relayed addr
      (emit (established peer id (connection_kind_for is_relayed addr) addr) known)
      (λ e. record { no_listener = (q e).no_listener; no_reservation = (q e).no_reservation }) e
handle_swarm_event-KeepsQuiet net (connection_closed peer id) t q e =
    ground (arith, forget_connection-KeepsQuiet net peer t q)
handle_swarm_event-KeepsQuiet net (mdns_discovered peers) t q e = ground (
  arith,
  q,
  learn_all-frame peers t,
  tell_found-frame net (group_found peers []) (learn_all peers t),
)
handle_swarm_event-KeepsQuiet net (mdns_expired peers) t q e =
    ground (arith, q, expire_all-frame peers t)
handle_swarm_event-KeepsQuiet net (routing_updated peer addrs) t q e =
    ground (arith, q, learn_routes-frame peer addrs t)
handle_swarm_event-KeepsQuiet net (query_progressed id found last) t q e = ground (arith, q)
handle_swarm_event-KeepsQuiet net e t q e' = ground (arith, q)

Round-KeepsQuiet : {t u : TaskState} → Round t u → KeepsQuiet t → KeepsQuiet u
unfolding reconnect_tick
Round-KeepsQuiet (swarm_event net e t) q = handle_swarm_event-KeepsQuiet net e t q
Round-KeepsQuiet (command net c t) q = handle_command-KeepsQuiet net c t q
Round-KeepsQuiet (tick net t) q =
    λ e. ground (arith, q, reconnect_lost_bootstraps-frame net t.bootstrap_peers t)

-- Whatever commands, events and ticks a task has seen since it was spawned, in the mode LanOnly no
-- circuit listens through a relay and no relay is marked as holding a reservation.
pub Runs-KeepsQuiet :
    (net : Libp2p) (bootstraps : List Multiaddr) (mode : DialMode) (t : TaskState)
    → Runs net bootstraps mode t
    → KeepsQuiet t
Runs-KeepsQuiet net bootstraps mode t spawned =
    λ e. ground (arith, spawn_swarm_with_bootstraps-frame net bootstraps mode)
Runs-KeepsQuiet net bootstraps mode t (round r step) =
    Round-KeepsQuiet step (Runs-KeepsQuiet net bootstraps mode _ r)
