-- ===== src/Swarm/Handle/Once.antt =====
-- The channels of the callers.
use y7ke.Swarm.{Libp2p, NetCommand, Slot}
use y7ke.Swarm.Handle.{
  Handle, System, Use, apply_dial_mode, ask, check_live, dial, dial_address, disconnect_peer,
  find_peer, new_handle, respond_handshake, respond_msg, respond_sync, send, send_handshake,
  send_msg, send_sync, shutdown, take_command, update_bootstraps, uses_apply_dial_mode,
  uses_check_live, uses_dial, uses_dial_address, uses_disconnect_peer, uses_find_peer,
  uses_respond_handshake, uses_respond_msg, uses_respond_sync, uses_send_handshake, uses_send_msg,
  uses_send_sync, uses_shutdown, uses_update_bootstraps,
}
use y7ke.Swarm.Life.Handled.{
  given, Handled, nothing, commanded, happened, ticked, accounted-Handled,
}
use y7ke.Swarm.Life.Accounts.{answered, hit, waiting}
use y7ke.Swarm.Life.Slots.{IsFresh, gives}
use y7ke.Swarm.Life.{reconnect_tick, spawn_swarm_with_bootstraps}
use y7ke.Swarm.Events.{SwarmEvent, handle_swarm_event}
use y7ke.Status.{DialMode}
use y7ke.Addr.{Multiaddr}
use y7ke.Prelude.{List, [], ap, arith, if◌then◌else◌, ltb, refl, true, ℕ, ◌++◌, ◌+◌, ◌∷◌, ◌≡◌, ◌≤◌}

-- A swarm that was spawned, and what happens to it since: a caller uses the handle, the task takes a
-- command, an event happens or the clock ticks.
pub data Reach (mode : DialMode) (bootstraps : List Multiaddr) : System → Type 0 where
  started :
      (net : Libp2p)
      → Reach mode bootstraps (record {
        handle = new_handle;
        task = spawn_swarm_with_bootstraps net bootstraps mode;
        handled = [];
      })
  used :
      {s : System} {h : Handle}
      → Use s.handle h
      → Reach mode bootstraps s
      → Reach mode bootstraps (record s { handle = h })
  took :
      (net : Libp2p) {s : System}
      → IsFresh net s.task
      → Reach mode bootstraps s
      → Reach mode bootstraps (take_command net s.handle.queue s)
  event_happened :
      (net : Libp2p) (e : SwarmEvent) {s : System}
      → s.handle.is_open ≡ true
      → Reach mode bootstraps s
      → Reach mode bootstraps (record s { task = handle_swarm_event net e s.task })
  clock_ticked :
      (net : Libp2p) {s : System}
      → s.handle.is_open ≡ true
      → Reach mode bootstraps s
      → Reach mode bootstraps (record s { task = reconnect_tick net s.task })

given-append :
    (slot : Slot) (xs ys : List NetCommand) → given slot (xs ++ ys) ≡ given slot xs + given slot ys
given-append slot [] ys = omega arith
given-append slot (c ∷ xs) ys = omega (arith, given-append slot xs ys)

-- Once for a channel that was made, and else not.
abbrev made : Slot → Handle → ℕ
made slot h = if ltb slot h.next_slot then 1 else 0

-- At most so many of the commands that were sent gave the channel, those counted that the task has
-- handled.
abbrev Sent : Slot → ℕ → Handle → Type 0
Sent slot n h = n + given slot h.queue ≤ made slot h

send-Sent :
    (slot : Slot) (n : ℕ) (c : NetCommand) (h : Handle)
    → gives slot c ≡ 0
    → Sent slot n h
    → Sent slot n (send c h).1
unfolding send
send-Sent slot n c h e s = ground (arith, given-append slot h.queue (c ∷ []))

ask-Sent :
    (slot : Slot) (n : ℕ) (f : Slot → NetCommand) (h : Handle)
    → gives slot (f h.next_slot) ≡ hit slot h.next_slot
    → Sent slot n h
    → Sent slot n (ask f h).1
unfolding ask send
ask-Sent slot n f h e s = ground (arith, given-append slot h.queue (f h.next_slot ∷ []))

Use-Sent : (slot : Slot) (n : ℕ) {h h' : Handle} → Use h h' → Sent slot n h → Sent slot n h'
unfolding dial dial_address find_peer send_handshake send_msg send_sync respond_handshake
    respond_msg respond_sync update_bootstraps apply_dial_mode check_live disconnect_peer shutdown
Use-Sent slot n (uses_dial y7 h) s = ask-Sent slot n (λ k. NetCommand.dial y7 k) h refl s
Use-Sent slot n (uses_dial_address addr h) s =
    send-Sent slot n (NetCommand.dial_address addr) h refl s
Use-Sent slot n (uses_find_peer y7 h) s = ask-Sent slot n (λ k. NetCommand.find_peer y7 k) h refl s
Use-Sent slot n (uses_send_handshake peer request h) s =
    ask-Sent slot n (λ k. NetCommand.send_handshake peer request k) h refl s
Use-Sent slot n (uses_send_msg peer request h) s =
    ask-Sent slot n (λ k. NetCommand.send_msg peer request k) h refl s
Use-Sent slot n (uses_send_sync peer request h) s =
    ask-Sent slot n (λ k. NetCommand.send_sync peer request k) h refl s
Use-Sent slot n (uses_respond_handshake channel response h) s =
    send-Sent slot n (NetCommand.respond_handshake channel response) h refl s
Use-Sent slot n (uses_respond_msg channel response h) s =
    send-Sent slot n (NetCommand.respond_msg channel response) h refl s
Use-Sent slot n (uses_respond_sync channel response h) s =
    send-Sent slot n (NetCommand.respond_sync channel response) h refl s
Use-Sent slot n (uses_update_bootstraps addrs h) s =
    send-Sent slot n (NetCommand.update_bootstraps addrs) h refl s
Use-Sent slot n (uses_apply_dial_mode mode h) s =
    send-Sent slot n (NetCommand.apply_dial_mode mode) h refl s
Use-Sent slot n (uses_check_live y7 h) s =
    ask-Sent slot n (λ k. NetCommand.check_live y7 k) h refl s
Use-Sent slot n (uses_disconnect_peer y7 h) s =
    send-Sent slot n (NetCommand.disconnect_peer y7) h refl s
Use-Sent slot n (uses_shutdown h) s = send-Sent slot n NetCommand.shutdown h refl s

-- The task's history, and the commands on their way.
record IsOrderly (mode : DialMode) (bootstraps : List Multiaddr) (slot : Slot) (s : System)
    : Type 0 where
  history : Handled mode bootstraps s.handled s.task
  sent : Sent slot (given slot s.handled) s.handle

take-IsOrderly :
    (mode : DialMode) (bootstraps : List Multiaddr) (slot : Slot) (net : Libp2p)
    (queue : List NetCommand) (s : System)
    → IsFresh net s.task
    → s.handle.queue ≡ queue
    → IsOrderly mode bootstraps slot s
    → IsOrderly mode bootstraps slot (take_command net queue s)
take-IsOrderly mode bootstraps slot net [] s f e o = o
take-IsOrderly mode bootstraps slot net (NetCommand.shutdown ∷ rest) s f e o = record {
  history = o.history;
  sent = omega (arith, o.sent);
}
take-IsOrderly mode bootstraps slot net (c ∷ rest) s f e o = record {
  history = commanded net c f o.history;
  sent = omega (arith, ap (given slot) e, o.sent);
}

Reach-IsOrderly :
    (mode : DialMode) (bootstraps : List Multiaddr) (slot : Slot) (s : System)
    → Reach mode bootstraps s
    → IsOrderly mode bootstraps slot s
Reach-IsOrderly mode bootstraps slot s (started net) = record {
  history = nothing net;
  sent = omega arith;
}
Reach-IsOrderly mode bootstraps slot s (used u r) =
    let o = Reach-IsOrderly mode bootstraps slot _ r in
    record { history = o.history; sent = Use-Sent slot _ u o.sent }
Reach-IsOrderly mode bootstraps slot s (took net f r) =
    take-IsOrderly mode bootstraps slot net _ _ f refl (Reach-IsOrderly mode bootstraps slot _ r)
Reach-IsOrderly mode bootstraps slot s (event_happened net e h r) =
    let o = Reach-IsOrderly mode bootstraps slot _ r in
    record { history = happened net e o.history; sent = o.sent }
Reach-IsOrderly mode bootstraps slot s (clock_ticked net h r) =
    let o = Reach-IsOrderly mode bootstraps slot _ r in
    record { history = ticked net o.history; sent = o.sent }

-- However callers use the handle, and whatever happens to the swarm, the channel that a caller waits on
-- has had at most one answer, and once it has one no request or query waits for it. A channel that was
-- not made yet has none. It is assumed that libp2p gives a request or query an id that is not in use.
pub Reach-answers :
    (mode : DialMode) (bootstraps : List Multiaddr) (slot : Slot) (s : System)
    → Reach mode bootstraps s
    → waiting slot s.task + answered slot s.task ≤ (if ltb slot s.handle.next_slot then 1 else 0)
Reach-answers mode bootstraps slot s r =
    let o = Reach-IsOrderly mode bootstraps slot s r in
    omega (arith, o.sent, accounted-Handled slot mode bootstraps s.handled s.task o.history)
