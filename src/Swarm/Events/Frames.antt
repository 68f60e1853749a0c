-- ===== src/Swarm/Events/Frames.antt =====
-- The loops that learn or forget addresses, and those that tell the app.
use y7ke.Prelude.{◌≡◌, refl, Option, none, some, List, [], ◌∷◌, arith}
use y7ke.Map
use y7ke.Map.{Map}
use y7ke.Addr.{Multiaddr}
use y7ke.App.{PeerId}
use y7ke.Swarm.{Libp2p, TaskState, call, added_peer_address, emit, over_book, remember_address}
use y7ke.EventLoop.Dispatch.{peer_discovered}
use y7ke.Swarm.Events.{learn_all, learn_routes, expire_all, expire_from, tell_found}

-- Two states that differ in their address book, calls and events at most.
pub record SameButLearned (t u : TaskState) : Type 0 where
  pub pending_handshake : u.pending_handshake ≡ t.pending_handshake
  pub pending_msg : u.pending_msg ≡ t.pending_msg
  pub pending_sync : u.pending_sync ≡ t.pending_sync
  pub pending_find_peer : u.pending_find_peer ≡ t.pending_find_peer
  pub provided_self : u.provided_self ≡ t.provided_self
  pub bootstrap_peers : u.bootstrap_peers ≡ t.bootstrap_peers
  pub relay_reserved : u.relay_reserved ≡ t.relay_reserved
  pub circuit_listeners : u.circuit_listeners ≡ t.circuit_listeners
  pub dial_mode : u.dial_mode ≡ t.dial_mode
  pub answers : u.answers ≡ t.answers

abbrev learn : PeerId → Multiaddr → TaskState → TaskState
learn peer addr t = call (added_peer_address peer addr) (over_book (remember_address peer addr) t)

pub learn_all-frame :
    (peers : List (PeerId × Multiaddr)) (t : TaskState) → SameButLearned t (learn_all peers t)
unfolding learn_all
learn_all-frame [] t = ground arith
learn_all-frame ((peer, addr) ∷ rest) t = ground (arith, learn_all-frame rest (learn peer addr t))

pub learn_routes-frame :
    (peer : PeerId) (addrs : List Multiaddr) (t : TaskState)
    → SameButLearned t (learn_routes peer addrs t)
unfolding learn_routes
learn_routes-frame peer [] t = ground arith
learn_routes-frame peer (a ∷ addrs) t =
    ground (arith, learn_routes-frame peer addrs (learn peer a t))

expire_from-frame :
    (old : Option (List Multiaddr)) (peer : PeerId) (addr : Multiaddr) (t : TaskState)
    → SameButLearned t (expire_from old peer addr t)
expire_from-frame none peer addr t = ground arith
expire_from-frame (some addrs) peer addr t = ground arith

pub expire_all-frame :
    (peers : List (PeerId × Multiaddr)) (t : TaskState) → SameButLearned t (expire_all peers t)
unfolding expire_all
expire_all-frame [] t = ground arith
expire_all-frame ((peer, addr) ∷ rest) t =
    let old = Map.get peer t.address_book in
    ground (
      arith,
      expire_from-frame old peer addr t,
      expire_all-frame rest (expire_from old peer addr t),
    )

pub tell_found-frame :
    (net : Libp2p) (groups : Map (List Multiaddr)) (t : TaskState)
    → SameButLearned t (tell_found net groups t)
      × ((tell_found net groups t).address_book ≡ t.address_book)
unfolding tell_found
tell_found-frame net [] t = (ground arith, refl)
tell_found-frame net ((peer, addrs) ∷ rest) t =
    let told = emit (peer_discovered peer addrs (net.y7_id_from_peer_id peer)) t in
    let (same, book) = tell_found-frame net rest told in (ground (arith, same), book)
