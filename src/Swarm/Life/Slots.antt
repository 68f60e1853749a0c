-- ===== src/Swarm/Life/Slots.antt =====
-- Each channel is answered as often as it was given.
use y7ke.Swarm.{
  DialOutcome, Libp2p, NetCommand, Slot, TaskState, addrs_of, apply_dial_mode, call, check_live,
  condition_false, dial, dial_address, dial_failed, dial_issued, dialed_peer, emit, find_peer,
  no_addresses, over_book, remember_address, send_handshake, send_msg, send_sync, update_bootstraps,
}
use y7ke.Swarm.Commands.{
  allowed_addrs, answer_dial, answer_live, dial_all, dial_y7, find_known, find_y7, handle_command,
}
use y7ke.Swarm.Commands.Frames.{
  SameButCalls, enter_internet-frame, enter_lan_only-frame, replace_bootstraps-frame,
}
use y7ke.Swarm.Events.{
  SwarmEvent, connection_closed, connection_established, forget_connection, group_found,
  handle_established, handle_swarm_event, handshake_failed, handshake_response, learn_all,
  learn_routes, mdns_discovered, mdns_expired, msg_failed, msg_response, provide_self,
  query_progressed, reserve, resolve_progress, routing_updated, sync_failed, sync_response,
}
use y7ke.Swarm.Events.Frames.{
  SameButLearned, expire_all-frame, learn_all-frame, learn_routes-frame, tell_found-frame,
}
use y7ke.EventLoop.Dispatch.{established, net_error}
use y7ke.Addr.{Multiaddr, connection_kind_for}
use y7ke.App.{PeerId}
use y7ke.Status.{internet_mode, lan_only}
use y7ke.Map
use y7ke.Map.{put-IsKeyed, weigh-put_fresh}
use y7ke.Status.{err, network, ok}
use y7ke.Swarm.Life.Accounts.{
  Accounts, IsKeyedTask, SamePending, answer-Accounts, answer_handshake-Accounts,
  answer_msg-Accounts, answer_sync-Accounts, end_query-Accounts, hit, kept-Accounts,
  resolve_progress-Accounts,
}
use y7ke.Prelude.{Bool, List, Option, [], arith, is_none, none, some, true, ℕ, ◌∷◌, ◌≡◌}

-- A channel that a command gives.
abbrev pub gives : Slot → NetCommand → ℕ
gives slot (dial y7 s) = hit slot s
gives slot (find_peer y7 s) = hit slot s
gives slot (send_handshake peer request s) = hit slot s
gives slot (send_msg peer envelope s) = hit slot s
gives slot (send_sync peer request s) = hit slot s
gives slot (check_live y7 s) = hit slot s
gives slot _ = 0

-- libp2p gives no id that is in use.
pub record IsFresh (net : Libp2p) (t : TaskState) : Type 0 where
  pub handshake : is_none (Map.get (net.request_id t.calls) t.pending_handshake) ≡ true
  pub msg : is_none (Map.get (net.request_id t.calls) t.pending_msg) ≡ true
  pub sync : is_none (Map.get (net.request_id t.calls) t.pending_sync) ≡ true
  pub query : is_none (Map.get (net.query_id t.calls) t.pending_find_peer) ≡ true

reserve-SamePending :
    (net : Libp2p) (peer : PeerId) (is_relayed : Bool) (addr : Multiaddr) (u t : TaskState)
    → SamePending t u
    → SamePending t (reserve net peer is_relayed addr u)
unfolding reserve
reserve-SamePending net peer is_relayed addr u t s = ground arith

forget_SamePending :
    (net : Libp2p) (peer : PeerId) (t : TaskState) → SamePending t (forget_connection net peer t)
unfolding forget_connection
forget_SamePending net peer t = ground arith

provide_SamePending :
    (net : Libp2p) (u t : TaskState) → SamePending t u → SamePending t (provide_self net u)
unfolding provide_self
provide_SamePending net u t s = ground arith

pub learned_SamePending : (t u : TaskState) → SameButLearned t u → SamePending t u
learned_SamePending t u s = ground arith

called_SamePending : (t u : TaskState) → SameButCalls t u → SamePending t u
called_SamePending t u s = ground arith

pub handle_swarm_event-Accounts :
    (slot : Slot) (net : Libp2p) (e : SwarmEvent) (t : TaskState)
    → IsKeyedTask t
    → Accounts t (handle_swarm_event net e t) slot 0
unfolding handle_swarm_event handle_established
handle_swarm_event-Accounts slot net (connection_established peer id is_relayed addr) t k =
    let known = over_book (remember_address peer addr) t in
    let told = emit (established peer id (connection_kind_for is_relayed addr) addr) known in
    kept-Accounts slot t _ k (reserve-SamePending net peer is_relayed addr told t (ground arith))
handle_swarm_event-Accounts slot net (connection_closed peer id) t k =
    kept-Accounts slot t _ k (ground (arith, forget_SamePending net peer t))
handle_swarm_event-Accounts slot net (mdns_discovered peers) t k =
    let learned = learn_all peers t in
    let told = tell_found-frame net (group_found peers []) learned in
    kept-Accounts slot t _ k (ground (arith, learn_all-frame peers t, told))
handle_swarm_event-Accounts slot net (mdns_expired peers) t k =
    kept-Accounts slot t _ k (learned_SamePending t _ (expire_all-frame peers t))
handle_swarm_event-Accounts slot net (routing_updated peer addrs) t k = kept-Accounts slot t _ k (
    provide_SamePending net (learn_routes peer addrs t) t
      (learned_SamePending t _ (learn_routes-frame peer addrs t)))
handle_swarm_event-Accounts slot net (query_progressed id found last) t k =
    let (keyed, same) = resolve_progress-Accounts slot found id t k in
    let (keyed', same') = end_query-Accounts slot last id (resolve_progress found id t) keyed in
    (keyed', omega (arith, same, same'))
handle_swarm_event-Accounts slot net (handshake_response id response) t k =
    answer_handshake-Accounts slot id (ok response) t k
handle_swarm_event-Accounts slot net (handshake_failed id) t k =
    answer_handshake-Accounts slot id (err network) t k
handle_swarm_event-Accounts slot net (msg_response id b) t k =
    answer_msg-Accounts slot id (ok b) t k
handle_swarm_event-Accounts slot net (msg_failed id) t k =
    answer_msg-Accounts slot id (err network) t k
handle_swarm_event-Accounts slot net (sync_response id response) t k =
    answer_sync-Accounts slot id (ok response) t k
handle_swarm_event-Accounts slot net (sync_failed id) t k =
    answer_sync-Accounts slot id (err network) t k
handle_swarm_event-Accounts slot net e t k = kept-Accounts slot t _ k (ground arith)

answer_dial-Accounts :
    (slot s : Slot) (outcome : DialOutcome) (t u : TaskState)
    → IsKeyedTask t
    → SamePending t u
    → Accounts t (answer_dial outcome s u) slot (hit slot s)
answer_dial-Accounts slot s dial_issued t u k p = answer-Accounts slot s _ t u k p
answer_dial-Accounts slot s condition_false t u k p = answer-Accounts slot s _ t u k p
answer_dial-Accounts slot s no_addresses t u k p = answer-Accounts slot s _ t u k p
answer_dial-Accounts slot s dial_failed t u k p =
    answer-Accounts slot s _ t (emit net_error u) k (ground (arith, p))

find_known-Accounts :
    (slot s : Slot) (net : Libp2p) (peer : PeerId) (addrs : List Multiaddr) (t : TaskState)
    → IsKeyedTask t
    → IsFresh net t
    → Accounts t (find_known net peer addrs s t) slot (hit slot s)
find_known-Accounts slot s net peer (a ∷ addrs) t k f =
    answer-Accounts slot s _ t t k (ground arith)
find_known-Accounts slot s net peer [] t k f =
    let id = net.query_id t.calls in
    (
      record {
        handshake = k.handshake;
        msg = k.msg;
        sync = k.sync;
        find = put-IsKeyed id (peer, s) t.pending_find_peer k.find;
      },
      omega (
        arith,
        weigh-put_fresh (λ (p : PeerId × Slot). hit slot p.1) id (peer, s) t.pending_find_peer
            f.query,
      ),
    )

dial_all-Accounts :
    (slot s : Slot) (net : Libp2p) (peer : PeerId) (addrs : List Multiaddr) (t : TaskState)
    → IsKeyedTask t
    → Accounts t (dial_all net peer addrs s t) slot (hit slot s)
dial_all-Accounts slot s net peer [] t k = answer-Accounts slot s _ t t k (ground arith)
dial_all-Accounts slot s net peer (a ∷ addrs) t k =
    let u = call (dialed_peer peer (a ∷ addrs)) t in
    answer_dial-Accounts slot s (net.dial_outcome t.calls) t u k (ground arith)

dial_y7-Accounts :
    (slot s : Slot) (net : Libp2p) (peer : Option PeerId) (t : TaskState)
    → IsKeyedTask t
    → Accounts t (dial_y7 net peer s t) slot (hit slot s)
dial_y7-Accounts slot s net none t k = answer-Accounts slot s _ t t k (ground arith)
dial_y7-Accounts slot s net (some peer) t k =
    dial_all-Accounts slot s net peer (allowed_addrs peer t) t k

find_y7-Accounts :
    (slot s : Slot) (net : Libp2p) (peer : Option PeerId) (t : TaskState)
    → IsKeyedTask t
    → IsFresh net t
    → Accounts t (find_y7 net peer s t) slot (hit slot s)
find_y7-Accounts slot s net none t k f = answer-Accounts slot s _ t t k (ground arith)
find_y7-Accounts slot s net (some peer) t k f =
    find_known-Accounts slot s net peer (addrs_of peer t.address_book) t k f

answer_live-Accounts :
    (slot s : Slot) (net : Libp2p) (peer : Option PeerId) (t : TaskState)
    → IsKeyedTask t
    → Accounts t (answer_live net peer s t) slot (hit slot s)
answer_live-Accounts slot s net none t k = answer-Accounts slot s _ t t k (ground arith)
answer_live-Accounts slot s net (some peer) t k = answer-Accounts slot s _ t t k (ground arith)

pub handle_command-Accounts :
    (slot : Slot) (net : Libp2p) (c : NetCommand) (t : TaskState)
    → IsKeyedTask t
    → IsFresh net t
    → Accounts t (handle_command net c t) slot (gives slot c)
unfolding handle_command
handle_command-Accounts slot net (dial y7 s) t k f =
    dial_y7-Accounts slot s net (net.peer_id_from_y7 y7) t k
handle_command-Accounts slot net (find_peer y7 s) t k f =
    find_y7-Accounts slot s net (net.peer_id_from_y7 y7) t k f
handle_command-Accounts slot net (check_live y7 s) t k f =
    answer_live-Accounts slot s net (net.peer_id_from_y7 y7) t k
handle_command-Accounts slot net (send_handshake peer request s) t k f =
    let id = net.request_id t.calls in
    (
      record {
        handshake = put-IsKeyed id s t.pending_handshake k.handshake;
        msg = k.msg;
        sync = k.sync;
        find = k.find;
      },
      omega (arith, weigh-put_fresh (hit slot) id s t.pending_handshake f.handshake),
    )
handle_command-Accounts slot net (send_msg peer envelope s) t k f =
    let id = net.request_id t.calls in
    (
      record {
        handshake = k.handshake;
        msg = put-IsKeyed id s t.pending_msg k.msg;
        sync = k.sync;
        find = k.find;
      },
      omega (arith, weigh-put_fresh (hit slot) id s t.pending_msg f.msg),
    )
handle_command-Accounts slot net (send_sync peer request s) t k f =
    let id = net.request_id t.calls in
    (
      record {
        handshake = k.handshake;
        msg = k.msg;
        sync = put-IsKeyed id s t.pending_sync k.sync;
        find = k.find;
      },
      omega (arith, weigh-put_fresh (hit slot) id s t.pending_sync f.sync),
    )
handle_command-Accounts slot net (dial_address addr) t k f = kept-Accounts slot t _ k (ground arith)
handle_command-Accounts slot net (update_bootstraps addrs) t k f =
    kept-Accounts slot t _ k (ground (arith, replace_bootstraps-frame addrs t))
handle_command-Accounts slot net (apply_dial_mode lan_only) t k f =
    kept-Accounts slot t _ k
      (ground (arith, enter_lan_only-frame (record t { dial_mode = lan_only })))
handle_command-Accounts slot net (apply_dial_mode internet_mode) t k f =
    kept-Accounts slot t _ k
      (ground (arith, enter_internet-frame net (record t { dial_mode = internet_mode })))
handle_command-Accounts slot net c t k f = kept-Accounts slot t _ k (ground arith)
