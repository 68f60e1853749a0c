-- ===== src/Swarm/Life/Lan.antt =====
-- A stretch of a task's life in the mode LanOnly.
use y7ke.Swarm.{
  Libp2p, NetCommand, TaskState, added_peer_address, call, emit, over_book, remember_address,
  removed_listener, started_providing,
}
use y7ke.Swarm.Commands.{handle_command}
use y7ke.Swarm.Events.{
  SwarmEvent, connection_closed, connection_established, drop_listener, end_query, expire_all,
  expire_from, forget_connection, group_found, handle_established, handle_swarm_event,
  handshake_failed, handshake_response, learn_all, learn_routes, mdns_discovered, mdns_expired,
  msg_failed, msg_response, provide_self, query_progressed, reserve, resolve_progress,
  routing_updated, sync_failed, sync_response, tell_found,
}
use y7ke.Swarm.Events.Frames.{
  expire_all-frame, learn_all-frame, learn_routes-frame, tell_found-frame,
}
use y7ke.Swarm.Life.{reconnect_tick}
use y7ke.EventLoop.Dispatch.{established, peer_discovered}
use y7ke.Addr.{Multiaddr, connection_kind_for}
use y7ke.App.{PeerId}
use y7ke.Status.{lan_only}
use y7ke.Map
use y7ke.Map.{Map}
use y7ke.Swarm.Life.Silence.{
  Given, Silent, forbidden, forbidden-snoc, handle_command-Silent, leaves_lan,
}
use y7ke.Prelude.{
  Bool, List, Option, [], ap, arith, false, none, not, refl, retain, some, ℕ, ◌==◌, ◌∙◌, ◌∷◌, ◌≡◌,
}

learn_all-Silent :
    (g : Given) (peers : List (PeerId × Multiaddr)) (t : TaskState) → Silent g t (learn_all peers t)
unfolding learn_all
learn_all-Silent g [] t = refl
learn_all-Silent g ((peer, addr) ∷ rest) t =
    learn_all-Silent g rest
      (call (added_peer_address peer addr) (over_book (remember_address peer addr) t))
    ∙ forbidden-snoc g t.calls (added_peer_address peer addr)

learn_routes-Silent :
    (g : Given) (peer : PeerId) (addrs : List Multiaddr) (t : TaskState)
    → Silent g t (learn_routes peer addrs t)
unfolding learn_routes
learn_routes-Silent g peer [] t = refl
learn_routes-Silent g peer (a ∷ addrs) t =
    learn_routes-Silent g peer addrs
      (call (added_peer_address peer a) (over_book (remember_address peer a) t))
    ∙ forbidden-snoc g t.calls (added_peer_address peer a)

tell_found-Silent :
    (g : Given) (net : Libp2p) (groups : Map (List Multiaddr)) (t : TaskState)
    → Silent g t (tell_found net groups t)
unfolding tell_found
tell_found-Silent g net [] t = refl
tell_found-Silent g net ((peer, addrs) ∷ rest) t =
    tell_found-Silent g net rest (emit (peer_discovered peer addrs (net.y7_id_from_peer_id peer)) t)

expire_from-Silent :
    (g : Given) (old : Option (List Multiaddr)) (peer : PeerId) (addr : Multiaddr) (t : TaskState)
    → Silent g t (expire_from old peer addr t)
expire_from-Silent g none peer addr t = refl
expire_from-Silent g (some addrs) peer addr t = refl

expire_all-Silent :
    (g : Given) (peers : List (PeerId × Multiaddr)) (t : TaskState)
    → Silent g t (expire_all peers t)
unfolding expire_all
expire_all-Silent g [] t = refl
expire_all-Silent g ((peer, addr) ∷ rest) t =
    let old = Map.get peer t.address_book in
    expire_all-Silent g rest (expire_from old peer addr t) ∙ expire_from-Silent g old peer addr t

provide_self-Silent :
    (g : Given) (net : Libp2p) (t : TaskState)
    → not g.routing ≡ false
    → Silent g t (provide_self net t)
unfolding provide_self
provide_self-Silent g net t r =
    ground (arith, r, forbidden-snoc g t.calls (started_providing net.local_peer_id))

reserve-lan :
    (net : Libp2p) (peer : PeerId) (is_relayed : Bool) (addr : Multiaddr) (t : TaskState)
    → t.dial_mode ≡ lan_only
    → reserve net peer is_relayed addr t ≡ t
unfolding reserve
reserve-lan net peer is_relayed addr t e = rw e

drop_listener-Silent :
    (g : Given) (id : Option ℕ) (peer : PeerId) (t : TaskState)
    → Silent g t (drop_listener id peer t)
drop_listener-Silent g none peer t = refl
drop_listener-Silent g (some id) peer t = forbidden-snoc g t.calls (removed_listener id)

forget_connection-Silent :
    (g : Given) (net : Libp2p) (peer : PeerId) (t : TaskState)
    → Silent g t (forget_connection net peer t)
unfolding forget_connection
forget_connection-Silent g net peer t =
    let unreserved = record t { relay_reserved = retain (λ p. not (p == peer)) t.relay_reserved } in
    ground (arith, drop_listener-Silent g (Map.get peer t.circuit_listeners) peer unreserved)

handle_swarm_event-mode :
    (net : Libp2p) (e : SwarmEvent) (t : TaskState)
    → t.dial_mode ≡ lan_only
    → (handle_swarm_event net e t).dial_mode ≡ lan_only
unfolding handle_swarm_event handle_established reserve forget_connection provide_self
    resolve_progress end_query
handle_swarm_event-mode net (mdns_discovered peers) t e =
    let told = tell_found-frame net (group_found peers []) (learn_all peers t) in
    ground (arith, e, learn_all-frame peers t, told)
handle_swarm_event-mode net (mdns_expired peers) t e = ground (arith, e, expire_all-frame peers t)
handle_swarm_event-mode net (routing_updated peer addrs) t e =
    ground (arith, e, learn_routes-frame peer addrs t)
handle_swarm_event-mode net e t l = ground (arith, l)

query-calls :
    (last : Bool) (found : Option (List PeerId)) (id : ℕ) (t : TaskState)
    → (end_query last id (resolve_progress found id t)).calls ≡ t.calls
unfolding end_query resolve_progress
query-calls last found id t = ground arith

-- An event of the DHT that the run may not hold.
abbrev pub routes : Given → SwarmEvent → Bool
routes g (routing_updated peer addrs) = not g.routing
routes g e = false

handle_swarm_event-Silent :
    (g : Given) (net : Libp2p) (e : SwarmEvent) (t : TaskState)
    → t.dial_mode ≡ lan_only
    → routes g e ≡ false
    → Silent g t (handle_swarm_event net e t)
unfolding handle_swarm_event handle_established
handle_swarm_event-Silent g net (connection_established peer id is_relayed addr) t e r =
    let known = over_book (remember_address peer addr) t in
    let told = emit (established peer id (connection_kind_for is_relayed addr) addr) known in
    rw (reserve-lan net peer is_relayed addr told e) refl
handle_swarm_event-Silent g net (connection_closed peer id) t e r =
    forget_connection-Silent g net peer t
handle_swarm_event-Silent g net (mdns_discovered peers) t e r =
    tell_found-Silent g net (group_found peers []) (learn_all peers t) ∙ learn_all-Silent g peers t
handle_swarm_event-Silent g net (mdns_expired peers) t e r = expire_all-Silent g peers t
handle_swarm_event-Silent g net (routing_updated peer addrs) t e r =
    provide_self-Silent g net (learn_routes peer addrs t) r ∙ learn_routes-Silent g peer addrs t
handle_swarm_event-Silent g net (query_progressed id found last) t e r =
    ap (forbidden g) (query-calls last found id t)
handle_swarm_event-Silent g net (handshake_response id response) t e r = ground arith
handle_swarm_event-Silent g net (handshake_failed id) t e r = ground arith
handle_swarm_event-Silent g net (msg_response id b) t e r = ground arith
handle_swarm_event-Silent g net (msg_failed id) t e r = ground arith
handle_swarm_event-Silent g net (sync_response id response) t e r = ground arith
handle_swarm_event-Silent g net (sync_failed id) t e r = ground arith
handle_swarm_event-Silent g net e t l r = refl

-- Rounds of the loop with no command that says where to dial or leaves the mode, and with no more than
-- is given of routing updates and lookups.
pub data Stays (g : Given) (t : TaskState) : TaskState → Type 0 where
  here : Stays g t t
  then_event :
      (net : Libp2p) (e : SwarmEvent) {u : TaskState}
      → routes g e ≡ false
      → Stays g t u
      → Stays g t (handle_swarm_event net e u)
  then_command :
      (net : Libp2p) (c : NetCommand) {u : TaskState}
      → leaves_lan g c ≡ false
      → Stays g t u
      → Stays g t (handle_command net c u)
  then_tick : (net : Libp2p) (u : TaskState) → Stays g t u → Stays g t (reconnect_tick net u)

reconnect_tick-lan :
    (net : Libp2p) (t : TaskState) → t.dial_mode ≡ lan_only → reconnect_tick net t ≡ t
unfolding reconnect_tick
reconnect_tick-lan net t e = rw e

Stays-lan :
    (g : Given) (t u : TaskState)
    → t.dial_mode ≡ lan_only
    → Stays g t u
    → Silent g t u × (u.dial_mode ≡ lan_only)
Stays-lan g t u e here = (refl, e)
Stays-lan g t u e (then_event net ev r s) =
    let (silent, stays) = Stays-lan g t _ e s in
    (handle_swarm_event-Silent g net ev _ stays r ∙ silent, handle_swarm_event-mode net ev _ stays)
Stays-lan g t u e (then_command net c l s) =
    let (silent, stays) = Stays-lan g t _ e s in
    let (silent', stays') = handle_command-Silent g net c _ stays l in (silent' ∙ silent, stays')
Stays-lan g t u e (then_tick net w s) =
    let (silent, stays) = Stays-lan g t w e s in rw (reconnect_tick-lan net w stays) (silent, stays)

-- A task in the mode LanOnly that handles events, ticks and commands, none of which gives an address
-- to dial or changes the mode to Internet, stays in the mode, and makes no call to dial an address of
-- a relay, to listen on a circuit, to add or bootstrap from bootstraps, or to set the DHT to serve.
-- Where no routing update of the DHT is among the events it makes no call to publish a provider
-- record either, and where no command to find a peer is among the commands no call to query for one.
pub Stays-Silent :
    (g : Given) (t u : TaskState)
    → t.dial_mode ≡ lan_only
    → Stays g t u
    → (forbidden g u.calls ≡ forbidden g t.calls) × (u.dial_mode ≡ lan_only)
Stays-Silent g t u e s = Stays-lan g t u e s
