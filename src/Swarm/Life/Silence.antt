-- ===== src/Swarm/Life/Silence.antt =====
-- The calls of libp2p in the mode LanOnly.
use y7ke.Swarm.{
  Call, DialOutcome, Libp2p, NetCommand, Slot, TaskState, addrs_of, apply_dial_mode, call,
  check_live, dial, dial_address, dialed, dialed_peer, disconnect_peer, disconnected, find_peer,
  got_providers, group_bootstraps, is_relayed_addr, kad_added, kad_bootstrapped, kad_serving,
  listened, removed_listener, requested_handshake, requested_msg, requested_sync, respond_handshake,
  respond_msg, respond_sync, responded_handshake, responded_msg, responded_sync, send_handshake,
  send_msg, send_sync, shutdown, started_providing, update_bootstraps, without_relayed,
}
use y7ke.Swarm.Commands.{
  allowed_addrs, answer_dial, dial_all, dial_new, dial_y7, disconnect_all, disconnect_known,
  enter_lan_only, find_known, find_y7, handle_command, prune_relayed, remove_listeners,
  replace_bootstraps,
}
use y7ke.Swarm.Commands.Frames.{enter_lan_only-frame, replace_bootstraps-frame}
use y7ke.Addr.{Multiaddr}
use y7ke.App.{PeerId}
use y7ke.Status.{internet_mode, lan_only}
use y7ke.Map.{Map}
use y7ke.Prelude.{
  Bool, List, Option, [], any, arith, false, if◌then◌else◌, none, refl, retain, some, true, ℕ, ◌++◌,
  ◌∙◌, not, ◌∷◌, ◌≡◌,
}

-- Whether a run may hold routing updates of the DHT and commands to find a peer.
pub record Given : Type 0 where
  pub routing : Bool
  pub lookups : Bool

-- A call that LanOnly forbids: a dial through a relay, a circuit to listen on, what uses the
-- bootstraps or serves the DHT; and a provider record and a query for one, where the run gives no
-- occasion for them.
abbrev pub is_forbidden : Given → Call → Bool
is_forbidden g (dialed_peer peer addrs) = any is_relayed_addr addrs
is_forbidden g (dialed addr) = true
is_forbidden g (listened addr) = true
is_forbidden g (kad_added peer addr) = true
is_forbidden g kad_bootstrapped = true
is_forbidden g (kad_serving serves) = serves
is_forbidden g (started_providing peer) = not g.routing
is_forbidden g (got_providers peer) = not g.lookups
is_forbidden g _ = false

abbrev pub forbidden : Given → List Call → List Call
forbidden g calls = retain (is_forbidden g) calls

pub forbidden-snoc :
    (g : Given) (calls : List Call) (c : Call)
    → forbidden g (calls ++ c ∷ [])
      ≡ (if is_forbidden g c then forbidden g calls ++ c ∷ [] else forbidden g calls)
forbidden-snoc g [] c = ground arith
forbidden-snoc g (d ∷ calls) c = ground (arith, forbidden-snoc g calls c)

-- No forbidden call more than there was.
abbrev pub Silent : Given → TaskState → TaskState → Type 0
Silent g t u = forbidden g u.calls ≡ forbidden g t.calls

any-without_relayed : (addrs : List Multiaddr) → any is_relayed_addr (without_relayed addrs) ≡ false
any-without_relayed [] = refl
any-without_relayed (a ∷ addrs) = ground (arith, any-without_relayed addrs)

remove_listeners-Silent :
    (g : Given) (listeners : Map ℕ) (t : TaskState) → Silent g t (remove_listeners listeners t)
unfolding remove_listeners
remove_listeners-Silent g [] t = refl
remove_listeners-Silent g ((peer, id) ∷ rest) t =
    remove_listeners-Silent g rest (call (removed_listener id) t)
    ∙ forbidden-snoc g t.calls (removed_listener id)

pub disconnect_all-Silent :
    (g : Given) (peers : Map (List Multiaddr)) (t : TaskState) → Silent g t (disconnect_all peers t)
unfolding disconnect_all
disconnect_all-Silent g [] t = refl
disconnect_all-Silent g ((peer, addrs) ∷ rest) t =
    disconnect_all-Silent g rest (call (disconnected peer) t)
    ∙ forbidden-snoc g t.calls (disconnected peer)

dial_new-lan :
    (known next : Map (List Multiaddr)) (t : TaskState)
    → t.dial_mode ≡ lan_only
    → dial_new known next t ≡ t
unfolding dial_new
dial_new-lan known [] t e = refl
dial_new-lan known ((peer, addrs) ∷ next) t e = ground (arith, dial_new-lan known next t)

answer_dial-calls :
    (outcome : DialOutcome) (slot : Slot) (t : TaskState)
    → (answer_dial outcome slot t).calls ≡ t.calls
answer_dial-calls outcome slot t = ground arith

dial_all-Silent :
    (g : Given) (net : Libp2p) (peer : PeerId) (addrs : List Multiaddr) (slot : Slot)
    (t : TaskState)
    → any is_relayed_addr addrs ≡ false
    → Silent g t (dial_all net peer addrs slot t)
dial_all-Silent g net peer [] slot t h = refl
dial_all-Silent g net peer (a ∷ addrs) slot t h =
    let c = dialed_peer peer (a ∷ addrs) in
    rw (answer_dial-calls (net.dial_outcome t.calls) slot (call c t))
      (ground (arith, forbidden-snoc g t.calls c, h))

enter_lan_only-Silent : (g : Given) (t : TaskState) → Silent g t (enter_lan_only t)
unfolding enter_lan_only
enter_lan_only-Silent g t =
    let quiet = record (remove_listeners t.circuit_listeners t) {
      circuit_listeners = [];
      relay_reserved = [];
      address_book = prune_relayed t.address_book;
    } in
    let alone = disconnect_all t.bootstrap_peers quiet in
    forbidden-snoc g alone.calls (kad_serving false)
    ∙ disconnect_all-Silent g t.bootstrap_peers quiet
    ∙ remove_listeners-Silent g t.circuit_listeners t

-- The commands that say where to dial, or to leave the mode, and the lookups that the run may not
-- hold.
abbrev pub leaves_lan : Given → NetCommand → Bool
leaves_lan g (dial_address addr) = true
leaves_lan g (apply_dial_mode internet_mode) = true
leaves_lan g (find_peer y7 slot) = not g.lookups
leaves_lan g _ = false

allowed_addrs-lan :
    (peer : PeerId) (t : TaskState)
    → t.dial_mode ≡ lan_only
    → any is_relayed_addr (allowed_addrs peer t) ≡ false
unfolding allowed_addrs
allowed_addrs-lan peer t e = rw e (any-without_relayed (addrs_of peer t.address_book))

dial_y7-Silent :
    (g : Given) (net : Libp2p) (peer : Option PeerId) (slot : Slot) (t : TaskState)
    → t.dial_mode ≡ lan_only
    → Silent g t (dial_y7 net peer slot t)
dial_y7-Silent g net none slot t e = refl
dial_y7-Silent g net (some peer) slot t e =
    dial_all-Silent g net peer (allowed_addrs peer t) slot t (allowed_addrs-lan peer t e)

find_known-Silent :
    (g : Given) (net : Libp2p) (peer : PeerId) (addrs : List Multiaddr) (slot : Slot)
    (t : TaskState)
    → not g.lookups ≡ false
    → Silent g t (find_known net peer addrs slot t)
find_known-Silent g net peer (a ∷ addrs) slot t l = refl
find_known-Silent g net peer [] slot t l =
    ground (arith, l, forbidden-snoc g t.calls (got_providers peer))

find_y7-Silent :
    (g : Given) (net : Libp2p) (peer : Option PeerId) (slot : Slot) (t : TaskState)
    → not g.lookups ≡ false
    → Silent g t (find_y7 net peer slot t)
find_y7-Silent g net none slot t l = refl
find_y7-Silent g net (some peer) slot t l =
    find_known-Silent g net peer (addrs_of peer t.address_book) slot t l

disconnect_known-Silent :
    (g : Given) (peer : Option PeerId) (t : TaskState) → Silent g t (disconnect_known peer t)
disconnect_known-Silent g none t = refl
disconnect_known-Silent g (some peer) t = forbidden-snoc g t.calls (disconnected peer)

replace_bootstraps-Silent :
    (g : Given) (addrs : List Multiaddr) (t : TaskState)
    → t.dial_mode ≡ lan_only
    → Silent g t (replace_bootstraps addrs t)
unfolding replace_bootstraps
replace_bootstraps-Silent g addrs t e =
    ground (arith, dial_new-lan t.bootstrap_peers (group_bootstraps addrs []) t e)

pub handle_command-Silent :
    (g : Given) (net : Libp2p) (c : NetCommand) (t : TaskState)
    → t.dial_mode ≡ lan_only
    → leaves_lan g c ≡ false
    → Silent g t (handle_command net c t) × ((handle_command net c t).dial_mode ≡ lan_only)
unfolding handle_command
handle_command-Silent g net (dial y7 slot) t e l =
    (dial_y7-Silent g net (net.peer_id_from_y7 y7) slot t e, ground arith)
handle_command-Silent g net (find_peer y7 slot) t e l =
    (find_y7-Silent g net (net.peer_id_from_y7 y7) slot t l, ground arith)
handle_command-Silent g net (dial_address addr) t e l = cc
handle_command-Silent g net (update_bootstraps addrs) t e l =
    (replace_bootstraps-Silent g addrs t e, ground (arith, replace_bootstraps-frame addrs t))
handle_command-Silent g net (apply_dial_mode internet_mode) t e l = cc
handle_command-Silent g net (apply_dial_mode lan_only) t e l =
    let lan = record t { dial_mode = lan_only } in
    (enter_lan_only-Silent g lan, ground (arith, enter_lan_only-frame lan))
handle_command-Silent g net (disconnect_peer y7) t e l =
    (disconnect_known-Silent g (net.peer_id_from_y7 y7) t, ground arith)
handle_command-Silent g net (check_live y7 slot) t e l = ground arith
handle_command-Silent g net (send_handshake peer request slot) t e l =
    (forbidden-snoc g t.calls (requested_handshake peer request), e)
handle_command-Silent g net (send_msg peer request slot) t e l =
    (forbidden-snoc g t.calls (requested_msg peer request), e)
handle_command-Silent g net (send_sync peer request slot) t e l =
    (forbidden-snoc g t.calls (requested_sync peer request), e)
handle_command-Silent g net (respond_handshake channel response) t e l =
    (forbidden-snoc g t.calls (responded_handshake channel response), e)
handle_command-Silent g net (respond_msg channel response) t e l =
    (forbidden-snoc g t.calls (responded_msg channel response), e)
handle_command-Silent g net (respond_sync channel response) t e l =
    (forbidden-snoc g t.calls (responded_sync channel response), e)
handle_command-Silent g net shutdown t e l = (refl, e)
