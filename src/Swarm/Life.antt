-- ===== src/Swarm/Life.antt =====
-- `spawn_swarm_with_bootstraps` and the loop of `run_swarm` in crates/y7ke-net/src/swarm.rs: a round
-- of the loop is an event of libp2p, a command or a tick, in any order.
pub mod Frames
pub mod Short
pub mod Kept
pub mod Book
pub mod Quiet
pub mod Silence
pub mod Lan
pub mod Accounts
pub mod Slots
pub mod Handled
use y7ke.Prelude.{ℕ, Bool, true, false, Option, none, some, List, [], ◌∷◌, if◌then◌else◌}
use y7ke.Map
use y7ke.Map.{Map}
use y7ke.Addr.{Multiaddr, ip4, ip6, tcp_port, udp_port, quic_v1}
use y7ke.Status.{DialMode, is_lan_only}
use y7ke.EventLoop.Dispatch.{net_error}
use y7ke.Swarm.{
  NetCommand, Libp2p, TaskState, call, emit, listened, dialed_peer, kad_bootstrapped, kad_serving,
  group_bootstraps,
}
use y7ke.Swarm.Commands.{seed_kad, handle_command, reconnect_lost_bootstraps}
use y7ke.Swarm.Events.{SwarmEvent, handle_swarm_event}

abbrev pub default_listen_addr : Multiaddr
default_listen_addr = ip4 0 ∷ tcp_port 0 ∷ []

abbrev pub default_quic_listen_addr : Multiaddr
default_quic_listen_addr = ip4 0 ∷ udp_port 0 ∷ quic_v1 ∷ []

abbrev pub default_listen_addr_v6 : Multiaddr
default_listen_addr_v6 = ip6 0 ∷ tcp_port 0 ∷ []

abbrev pub default_quic_listen_addr_v6 : Multiaddr
default_quic_listen_addr_v6 = ip6 0 ∷ udp_port 0 ∷ quic_v1 ∷ []

-- `TaskState::default` with the bootstraps and the mode.
abbrev pub new_task : Map (List Multiaddr) → DialMode → TaskState
new_task bootstraps mode = record {
  address_book = [];
  pending_handshake = [];
  pending_msg = [];
  pending_sync = [];
  pending_find_peer = [];
  provided_self = false;
  bootstrap_peers = bootstraps;
  relay_reserved = [];
  circuit_listeners = [];
  dial_mode = mode;
  calls = [];
  answers = [];
  events = [];
}

abbrev report_listen : Option ℕ → TaskState → TaskState
report_listen none t = emit net_error t
report_listen (some id) t = t

-- A failure to listen on IPv4 is told to the app.
unfoldable pub listen_v4 : Libp2p → Multiaddr → TaskState → TaskState
listen_v4 net addr t = report_listen (net.listener t.calls) (call (listened addr) t)

unfoldable pub dial_bootstraps : Map (List Multiaddr) → TaskState → TaskState
dial_bootstraps [] t = t
dial_bootstraps ((peer, addrs) ∷ rest) t =
    dial_bootstraps rest (call (dialed_peer peer addrs) (seed_kad peer addrs t))

abbrev bootstrap_unless : List Multiaddr → TaskState → TaskState
bootstrap_unless [] t = t
bootstrap_unless (a ∷ addrs) t = call kad_bootstrapped t

unfoldable pub start_listening : Libp2p → TaskState → TaskState
unfolding listen_v4
start_listening net t =
    let both = listen_v4 net default_quic_listen_addr (listen_v4 net default_listen_addr t) in
    call (listened default_quic_listen_addr_v6) (call (listened default_listen_addr_v6) both)

unfoldable pub spawn_swarm_with_bootstraps : Libp2p → List Multiaddr → DialMode → TaskState
unfolding start_listening dial_bootstraps
spawn_swarm_with_bootstraps net bootstraps mode =
    let peers = group_bootstraps bootstraps [] in
    let t = start_listening net (new_task peers mode) in
    if is_lan_only mode
    then call (kad_serving false) t
    else bootstrap_unless bootstraps (dial_bootstraps peers t)

-- The tick every 15 seconds.
unfoldable pub reconnect_tick : Libp2p → TaskState → TaskState
reconnect_tick net t =
    if is_lan_only t.dial_mode then t else reconnect_lost_bootstraps net t.bootstrap_peers t

-- A round of the loop, with what libp2p answers in it.
pub data Round : TaskState → TaskState → Type 0 where
  swarm_event :
      (net : Libp2p) (e : SwarmEvent) (t : TaskState) → Round t (handle_swarm_event net e t)
  command : (net : Libp2p) (c : NetCommand) (t : TaskState) → Round t (handle_command net c t)
  tick : (net : Libp2p) (t : TaskState) → Round t (reconnect_tick net t)

-- The states of a task that was spawned in a mode with the bootstraps given.
pub data Runs (net : Libp2p) (bootstraps : List Multiaddr) (mode : DialMode)
    : TaskState → Type 0 where
  spawned : Runs net bootstraps mode (spawn_swarm_with_bootstraps net bootstraps mode)
  round : {t u : TaskState} → Runs net bootstraps mode t → Round t u → Runs net bootstraps mode u
