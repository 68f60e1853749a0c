-- ===== src/Swarm/Life/Frames.antt =====
-- What the start of a task leaves as it was.
use y7ke.Swarm.{Libp2p, TaskState, call, dialed_peer, group_bootstraps}
use y7ke.Swarm.Commands.{seed_kad}
use y7ke.Swarm.Commands.Frames.{SameButCalls, seed_kad-frame}
use y7ke.Swarm.Events.Frames.{SameButLearned}
use y7ke.Swarm.Life.{dial_bootstraps, new_task, spawn_swarm_with_bootstraps, start_listening}
use y7ke.Addr.{Multiaddr}
use y7ke.Status.{DialMode}
use y7ke.Map.{Map}
use y7ke.Prelude.{List, [], arith, ◌∷◌, ◌≡◌}

pub dial_bootstraps-frame :
    (peers : Map (List Multiaddr)) (t : TaskState) → SameButCalls t (dial_bootstraps peers t)
unfolding dial_bootstraps
dial_bootstraps-frame [] t = ground arith
dial_bootstraps-frame ((peer, addrs) ∷ rest) t = ground (
  arith,
  seed_kad-frame peer addrs t,
  dial_bootstraps-frame rest (call (dialed_peer peer addrs) (seed_kad peer addrs t)),
)

start_listening-frame :
    (net : Libp2p) (t : TaskState)
    → SameButLearned t (start_listening net t)
      × ((start_listening net t).address_book ≡ t.address_book)
unfolding start_listening
start_listening-frame net t = ground arith

pub spawn_swarm_with_bootstraps-frame :
    (net : Libp2p) (bootstraps : List Multiaddr) (mode : DialMode)
    → let t = new_task (group_bootstraps bootstraps []) mode in
      let u = spawn_swarm_with_bootstraps net bootstraps mode in
      SameButLearned t u × (u.address_book ≡ [])
unfolding spawn_swarm_with_bootstraps
spawn_swarm_with_bootstraps-frame net bootstraps mode =
    let peers = group_bootstraps bootstraps [] in
    let t = start_listening net (new_task peers mode) in
    ground (arith, start_listening-frame net (new_task peers mode), dial_bootstraps-frame peers t)
