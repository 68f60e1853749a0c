-- ===== src/Swarm/Life/Handled.antt =====
-- Runs of a task with the commands that it handled.
use y7ke.Swarm.{Libp2p, NetCommand, Slot, TaskState, group_bootstraps}
use y7ke.Swarm.Commands.{handle_command}
use y7ke.Swarm.Commands.Frames.{reconnect_lost_bootstraps-frame}
use y7ke.Swarm.Events.{SwarmEvent, handle_swarm_event}
use y7ke.Swarm.Life.{new_task, reconnect_tick, spawn_swarm_with_bootstraps}
use y7ke.Swarm.Life.Frames.{spawn_swarm_with_bootstraps-frame}
use y7ke.Addr.{Multiaddr}
use y7ke.Status.{DialMode}
use y7ke.Swarm.Life.Accounts.{Accounts, IsKeyedTask, accounted, answered, kept-Accounts, waiting}
use y7ke.Swarm.Life.Slots.{
  IsFresh, gives, handle_command-Accounts, handle_swarm_event-Accounts, learned_SamePending,
}
use y7ke.Prelude.{List, [], arith, ℕ, ◌+◌, ◌∷◌, ◌≡◌}

abbrev pub given : Slot → List NetCommand → ℕ
given slot [] = 0
given slot (c ∷ cs) = gives slot c + given slot cs

-- A task that has handled the commands given, the last first, among events and ticks. In each
-- command libp2p draws ids that are not in use.
pub data Handled (mode : DialMode) (bootstraps : List Multiaddr)
    : List NetCommand → TaskState → Type 0 where
  nothing :
      (net : Libp2p) → Handled mode bootstraps [] (spawn_swarm_with_bootstraps net bootstraps mode)
  commanded :
      (net : Libp2p) (c : NetCommand) {cs : List NetCommand} {t : TaskState}
      → IsFresh net t
      → Handled mode bootstraps cs t
      → Handled mode bootstraps (c ∷ cs) (handle_command net c t)
  happened :
      (net : Libp2p) (e : SwarmEvent) {cs : List NetCommand} {t : TaskState}
      → Handled mode bootstraps cs t
      → Handled mode bootstraps cs (handle_swarm_event net e t)
  ticked :
      (net : Libp2p) {cs : List NetCommand} {t : TaskState}
      → Handled mode bootstraps cs t
      → Handled mode bootstraps cs (reconnect_tick net t)

reconnect_tick-Accounts :
    (slot : Slot) (net : Libp2p) (t : TaskState)
    → IsKeyedTask t
    → Accounts t (reconnect_tick net t) slot 0
unfolding reconnect_tick
reconnect_tick-Accounts slot net t k =
    kept-Accounts slot t _ k
      (ground (arith, reconnect_lost_bootstraps-frame net t.bootstrap_peers t))

abbrev Balanced : Slot → List NetCommand → TaskState → Type 0
Balanced slot cs t = IsKeyedTask t × (accounted slot t ≡ given slot cs)

spawned-Balanced :
    (slot : Slot) (net : Libp2p) (bootstraps : List Multiaddr) (mode : DialMode)
    → Balanced slot [] (spawn_swarm_with_bootstraps net bootstraps mode)
spawned-Balanced slot net bootstraps mode =
    let t = new_task (group_bootstraps bootstraps []) mode in
    let fresh : IsKeyedTask t = record { handshake = tt; msg = tt; sync = tt; find = tt } in
    let same = learned_SamePending t _ (spawn_swarm_with_bootstraps-frame net bootstraps mode).0 in
    let (keyed, count) = kept-Accounts slot t _ fresh same in (keyed, count)

Handled-Balanced :
    (slot : Slot) (mode : DialMode) (bootstraps : List Multiaddr) (cs : List NetCommand)
    (t : TaskState)
    → Handled mode bootstraps cs t
    → Balanced slot cs t
Handled-Balanced slot mode bootstraps cs t (nothing net) = spawned-Balanced slot net bootstraps mode
Handled-Balanced slot mode bootstraps cs t (commanded net c f h) =
    let (k, e) = Handled-Balanced slot mode bootstraps _ _ h in
    let (k', e') = handle_command-Accounts slot net c _ k f in (k', omega (arith, e, e'))
Handled-Balanced slot mode bootstraps cs t (happened net e h) =
    let (k, e0) = Handled-Balanced slot mode bootstraps _ _ h in
    let (k', e1) = handle_swarm_event-Accounts slot net e _ k in (k', omega (arith, e0, e1))
Handled-Balanced slot mode bootstraps cs t (ticked net h) =
    let (k, e0) = Handled-Balanced slot mode bootstraps _ _ h in
    let (k', e1) = reconnect_tick-Accounts slot net _ k in (k', omega (arith, e0, e1))

-- Whatever commands, events and ticks a task has handled since it was spawned, the commands' channels
-- are accounted for: the requests and queries that wait for a channel and the answers that it has had
-- are together as many as the commands that gave it. So a channel that one command gave has at most one
-- answer, and if it has none a request or query waits for it. It is assumed that libp2p gives a
-- request or query an id that is not in use.
pub accounted-Handled :
    (slot : Slot) (mode : DialMode) (bootstraps : List Multiaddr) (cs : List NetCommand)
    (t : TaskState)
    → Handled mode bootstraps cs t
    → waiting slot t + answered slot t ≡ given slot cs
accounted-Handled slot mode bootstraps cs t h = (Handled-Balanced slot mode bootstraps cs t h).1
