-- ===== src/Swarm/Commands/Frames.antt =====
-- The loops that only make calls.
use y7ke.Prelude.{◌≡◌, true, false, List, [], ◌∷◌, arith}
use y7ke.Map.{Map}
use y7ke.Addr.{Multiaddr}
use y7ke.App.{PeerId}
use y7ke.Swarm.{
  group_bootstraps, Libp2p, TaskState, call, dialed_peer, kad_added, kad_serving, removed_listener,
  disconnected,
}
use y7ke.Swarm.Commands.{
  seed_kad, dial_new, reconnect_lost_bootstraps, remove_listeners, disconnect_all, seed_all,
  enter_lan_only, enter_internet, replace_bootstraps, prune_relayed,
}

-- Two states that differ in their calls at most.
pub record SameButCalls (t u : TaskState) : Type 0 where
  pub address_book : u.address_book ≡ t.address_book
  pub pending_handshake : u.pending_handshake ≡ t.pending_handshake
  pub pending_msg : u.pending_msg ≡ t.pending_msg
  pub pending_sync : u.pending_sync ≡ t.pending_sync
  pub pending_find_peer : u.pending_find_peer ≡ t.pending_find_peer
  pub provided_self : u.provided_self ≡ t.provided_self
  pub bootstrap_peers : u.bootstrap_peers ≡ t.bootstrap_peers
  pub relay_reserved : u.relay_reserved ≡ t.relay_reserved
  pub circuit_listeners : u.circuit_listeners ≡ t.circuit_listeners
  pub dial_mode : u.dial_mode ≡ t.dial_mode
  pub answers : u.answers ≡ t.answers
  pub events : u.events ≡ t.events

pub seed_kad-frame :
    (peer : PeerId) (addrs : List Multiaddr) (t : TaskState)
    → SameButCalls t (seed_kad peer addrs t)
unfolding seed_kad
seed_kad-frame peer [] t = ground arith
seed_kad-frame peer (a ∷ addrs) t =
    ground (arith, seed_kad-frame peer addrs (call (kad_added peer a) t))

pub dial_new-frame :
    (known next : Map (List Multiaddr)) (t : TaskState) → SameButCalls t (dial_new known next t)
unfolding dial_new
dial_new-frame known [] t = ground arith
dial_new-frame known ((peer, addrs) ∷ next) t = ground (
  arith,
  seed_kad-frame peer addrs t,
  dial_new-frame known next t,
  dial_new-frame known next (call (dialed_peer peer addrs) (seed_kad peer addrs t)),
)

pub reconnect_lost_bootstraps-frame :
    (net : Libp2p) (peers : Map (List Multiaddr)) (t : TaskState)
    → SameButCalls t (reconnect_lost_bootstraps net peers t)
unfolding reconnect_lost_bootstraps
reconnect_lost_bootstraps-frame net [] t = ground arith
reconnect_lost_bootstraps-frame net ((peer, addrs) ∷ rest) t = ground (
  arith,
  reconnect_lost_bootstraps-frame net rest t,
  reconnect_lost_bootstraps-frame net rest (call (dialed_peer peer addrs) t),
)

pub remove_listeners-frame :
    (listeners : Map _) (t : TaskState) → SameButCalls t (remove_listeners listeners t)
unfolding remove_listeners
remove_listeners-frame [] t = ground arith
remove_listeners-frame ((peer, id) ∷ rest) t =
    ground (arith, remove_listeners-frame rest (call (removed_listener id) t))

pub disconnect_all-frame :
    (peers : Map (List Multiaddr)) (t : TaskState) → SameButCalls t (disconnect_all peers t)
unfolding disconnect_all
disconnect_all-frame [] t = ground arith
disconnect_all-frame ((peer, addrs) ∷ rest) t =
    ground (arith, disconnect_all-frame rest (call (disconnected peer) t))

pub seed_all-frame :
    (peers : Map (List Multiaddr)) (t : TaskState) → SameButCalls t (seed_all peers t)
unfolding seed_all
seed_all-frame [] t = ground arith
seed_all-frame ((peer, addrs) ∷ rest) t =
    ground (arith, seed_kad-frame peer addrs t, seed_all-frame rest (seed_kad peer addrs t))

pub enter_lan_only-frame :
    (t : TaskState)
    → SameButCalls
        (record t {
          circuit_listeners = [];
          relay_reserved = [];
          address_book = prune_relayed t.address_book;
          provided_self = false;
        })
        (enter_lan_only t)
unfolding enter_lan_only
enter_lan_only-frame t =
    let quiet = record (remove_listeners t.circuit_listeners t) {
      circuit_listeners = [];
      relay_reserved = [];
      address_book = prune_relayed t.address_book;
    } in
    ground (
      arith,
      remove_listeners-frame t.circuit_listeners t,
      disconnect_all-frame t.bootstrap_peers quiet,
    )

pub enter_internet-frame : (net : Libp2p) (t : TaskState) → SameButCalls t (enter_internet net t)
unfolding enter_internet
enter_internet-frame net t =
    let serving = call (kad_serving true) t in
    let seeded = seed_all t.bootstrap_peers serving in
    ground (
      arith,
      seed_all-frame t.bootstrap_peers serving,
      reconnect_lost_bootstraps-frame net t.bootstrap_peers seeded,
    )

pub replace_bootstraps-frame :
    (addrs : List Multiaddr) (t : TaskState)
    → SameButCalls
        (record t { bootstrap_peers = group_bootstraps addrs [] })
        (replace_bootstraps addrs t)
unfolding replace_bootstraps
replace_bootstraps-frame addrs t =
    ground (arith, dial_new-frame t.bootstrap_peers (group_bootstraps addrs []) t)
