-- ===== src/Swarm/Tests.antt =====
-- Concrete runs of a task with one bootstrap, whose PeerId is 4. The ids of requests count the calls.
use y7ke.Swarm.Grouping.{leads_to, nub}
use y7ke.Addr.{p2p_circuit}
use y7ke.Prelude.{inr}
use y7ke.Swarm.Finding.{known_of}
use y7ke.Swarm.Life.Silence.{Given}
use y7ke.Swarm.{
  Libp2p, TaskState, addrs_of, apply_dial_mode, dial, dial_issued, find_peer, group_bootstraps,
  listened, peer_id_from_multiaddr, send_msg,
}
use y7ke.Swarm.Commands.{handle_command, seed_kad}
use y7ke.Swarm.Events.{
  SwarmEvent, connection_closed, connection_established, handle_swarm_event, mdns_discovered,
  msg_response, query_progressed, reserve,
}
use y7ke.Swarm.Life.{
  command, dial_bootstraps, listen_v4, round, spawn_swarm_with_bootstraps, spawned, start_listening,
  swarm_event,
}
use y7ke.Addr.{Multiaddr, ip4, p2p, tcp_port}
use y7ke.Addr.Equality.{contains}
use y7ke.Map
use y7ke.Status.{DialMode, internet_mode, lan_only}
use y7ke.Messaging.{MessageEnvelope}
use y7ke.Swarm.Life.Handled.{accounted-Handled, given, nothing}
use y7ke.Swarm.Life.Handled.{happened, commanded, nothing}
use y7ke.Swarm.Life.Lan.{Stays-Silent, here, then_command, then_event}
use y7ke.Swarm.Life.Lan.{then_command, then_event, here}
use y7ke.Swarm.Life.Silence.{forbidden}
use y7ke.Swarm.Life.Quiet.{KeepsQuiet, Runs-KeepsQuiet}
use y7ke.Swarm.Life.Book.{Runs-IsBook}
use y7ke.Swarm.Life.Short.{IsBook}
use y7ke.Swarm.Life.Accounts.{answered, waiting}
use y7ke.Swarm.Life.Slots.{IsFresh}
use y7ke.Swarm.Handle
use y7ke.Swarm.Handle.{System, new_handle, uses_send_msg}
use y7ke.Swarm.Handle.Once.{Reach, Reach-answers, event_happened, started, took, used}
use y7ke.Swarm.Grouping.{group_bootstraps-eq-dedup}
use y7ke.Swarm.Finding.{query_progressed-answers}
use y7ke.Swarm.Relay.{IsUnreserved, reserve-cycle}
use y7ke.Samples.{envelope_from}
use y7ke.Prelude.{
  ltb, if◌then◌else◌, ◌≤◌, List, [], false, length, none, refl, retain, some, true, ◌*◌, ◌++◌, ◌+◌,
  ◌^◌, ◌∷◌, ◌≡◌,
}

abbrev net1 : Libp2p
net1 = record {
  dial_outcome = λ calls. dial_issued;
  is_connected = λ calls peer. false;
  listener = λ calls. some 7;
  provides = λ calls. true;
  request_id = λ calls. length calls;
  query_id = λ calls. length calls;
  local_peer_id = 1;
  peer_id_from_y7 = λ y7. some y7;
  y7_id_from_peer_id = λ peer. some peer;
}

abbrev relay4 : Multiaddr
relay4 = ip4 (8 * 2 ^ 24) ∷ tcp_port 4001 ∷ p2p 4 ∷ []

abbrev host4 : Multiaddr
host4 = ip4 (8 * 2 ^ 24) ∷ tcp_port 4001 ∷ []

abbrev near2 : Multiaddr
near2 = ip4 (10 * 2 ^ 24) ∷ tcp_port 4001 ∷ []

abbrev relays : List Multiaddr
relays = relay4 ∷ []

abbrev idle : DialMode → TaskState
idle mode = spawn_swarm_with_bootstraps net1 relays mode

abbrev envelope1 : MessageEnvelope
envelope1 = envelope_from 2

abbrev asked : TaskState
asked = handle_command net1 (send_msg 2 envelope1 9) (idle internet_mode)

abbrev acknowledged : SwarmEvent
acknowledged = msg_response 7 true

abbrev finding : TaskState
finding = handle_command net1 (find_peer 2 9) (idle internet_mode)

abbrev met : TaskState
met = handle_swarm_event net1 (connection_established 4 1 false relay4) (idle internet_mode)

abbrev heard : SwarmEvent
heard = mdns_discovered ((2, near2) ∷ (2, near2) ∷ [])

idle-IsFresh : IsFresh net1 (idle internet_mode)
unfolding spawn_swarm_with_bootstraps start_listening listen_v4 dial_bootstraps seed_kad
    group_bootstraps peer_id_from_multiaddr Map.get Map.put contains
idle-IsFresh = record { handshake = refl; msg = refl; sync = refl; query = refl }

-- The channel has its answer, and no request waits for it.
settled : waiting 9 (handle_swarm_event net1 acknowledged asked) ≡ 0
unfolding handle_swarm_event handle_command spawn_swarm_with_bootstraps start_listening listen_v4
    dial_bootstraps seed_kad group_bootstraps peer_id_from_multiaddr Map.get Map.put Map.remove
    contains
settled = refl

accounted-Handled_example :
    waiting 9 (handle_swarm_event net1 acknowledged asked)
      + answered 9 (handle_swarm_event net1 acknowledged asked)
    ≡ given 9 (send_msg 2 envelope1 9 ∷ [])
accounted-Handled_example =
    accounted-Handled 9 internet_mode relays (send_msg 2 envelope1 9 ∷ [])
      (handle_swarm_event net1 acknowledged asked)
      (happened net1 acknowledged
        (commanded net1 (send_msg 2 envelope1 9) idle-IsFresh (nothing net1)))

starts_lan : (idle lan_only).dial_mode ≡ lan_only
unfolding spawn_swarm_with_bootstraps start_listening listen_v4 group_bootstraps
    peer_id_from_multiaddr
starts_lan = refl

abbrev met_lan : TaskState
met_lan = handle_swarm_event net1 (connection_established 4 1 false relay4) (idle lan_only)

abbrev no_routing : Given
no_routing = record { routing = false; lookups = false }

Stays-Silent_example :
    let u = handle_command net1 (dial 4 9) met_lan in
    (forbidden no_routing u.calls ≡ forbidden no_routing (idle lan_only).calls)
    × (u.dial_mode ≡ lan_only)
Stays-Silent_example =
    Stays-Silent no_routing (idle lan_only) (handle_command net1 (dial 4 9) met_lan) starts_lan (
      then_command net1 (dial 4 9) refl
        (then_event net1 (connection_established 4 1 false relay4) refl here))

Runs-KeepsQuiet_example : KeepsQuiet (handle_command net1 (apply_dial_mode lan_only) met)
Runs-KeepsQuiet_example =
    Runs-KeepsQuiet net1 relays internet_mode (handle_command net1 (apply_dial_mode lan_only) met) (
      round
        (round spawned
          (swarm_event net1 (connection_established 4 1 false relay4) (idle internet_mode)))
        (command net1 (apply_dial_mode lan_only) met))

Runs-IsBook_example : IsBook (handle_swarm_event net1 heard met).address_book
Runs-IsBook_example = Runs-IsBook net1 relays internet_mode (handle_swarm_event net1 heard met) (
    round
      (round spawned
        (swarm_event net1 (connection_established 4 1 false relay4) (idle internet_mode)))
      (swarm_event net1 heard met))

group_bootstraps-eq-dedup_example :
    addrs_of 4 (group_bootstraps (relay4 ∷ near2 ∷ relay4 ∷ []) [])
    ≡ nub (retain (leads_to 4) (relay4 ∷ near2 ∷ relay4 ∷ []))
group_bootstraps-eq-dedup_example = group_bootstraps-eq-dedup 4 (relay4 ∷ near2 ∷ relay4 ∷ [])

is_finding : Map.get 7 finding.pending_find_peer ≡ some (2, 9)
unfolding handle_command spawn_swarm_with_bootstraps start_listening listen_v4 dial_bootstraps
    seed_kad group_bootstraps peer_id_from_multiaddr Map.get Map.put contains
is_finding = refl

query_progressed-answers_example :
    let u = handle_swarm_event net1 (query_progressed 7 none true) finding in
    (u.answers ≡ finding.answers ++ (9, known_of (Map.get 2 finding.address_book)) ∷ [])
    × (Map.get 7 u.pending_find_peer ≡ none)
    × (u.address_book ≡ finding.address_book)
    × (u.calls ≡ finding.calls)
query_progressed-answers_example = query_progressed-answers net1 7 none 2 9 finding is_finding

unreserved4 : IsUnreserved 4 (idle internet_mode)
unfolding spawn_swarm_with_bootstraps start_listening listen_v4 dial_bootstraps seed_kad
    group_bootstraps peer_id_from_multiaddr Map.get Map.put contains
unreserved4 = record { mode = refl; bootstrap = refl; unreserved = refl }

reserve-cycle_example :
    let u = reserve net1 4 false relay4 (idle internet_mode) in
    (u.calls ≡ (idle internet_mode).calls ++ listened (host4 ++ p2p 4 ∷ p2p_circuit ∷ []) ∷ [])
    × (reserve net1 4 false relay4 u ≡ u)
    × IsUnreserved 4 (handle_swarm_event net1 (connection_closed 4 1) u)
    × (Map.get 4 (handle_swarm_event net1 (connection_closed 4 1) u).circuit_listeners ≡ none)
reserve-cycle_example =
    reserve-cycle net1 4 host4 relay4 7 1 (idle internet_mode) refl (inr (4, refl)) unreserved4 refl

-- A caller sends a message, the task takes the command, and the peer acknowledges.
abbrev running : System
running = record {
  handle = record { queue = []; is_open = true; next_slot = 1 };
  task =
      handle_swarm_event net1 acknowledged
        (handle_command net1 (send_msg 2 envelope1 0) (idle internet_mode));
  handled = send_msg 2 envelope1 0 ∷ [];
}

running-Reach : Reach internet_mode relays running
unfolding Handle.send_msg Handle.ask Handle.send
running-Reach =
    event_happened net1 acknowledged refl
      (took net1 idle-IsFresh (used (uses_send_msg 2 envelope1 new_handle) (started net1)))

Reach-answers_example :
    waiting 0 running.task + answered 0 running.task
    ≤ (if ltb 0 running.handle.next_slot then 1 else 0)
Reach-answers_example = Reach-answers internet_mode relays 0 running running-Reach
