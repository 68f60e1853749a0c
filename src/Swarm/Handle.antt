-- ===== src/Swarm/Handle.antt =====
-- `NetHandle` of crates/y7ke-net/src/handle.rs: its methods send a command to the task, and those that
-- ask make a one-shot channel for the answer first. The channel of commands is taken to be long enough,
-- so that a sender does not wait for room.
pub mod Once
use y7ke.Swarm.{Libp2p, NetCommand, Slot, TaskState}
use y7ke.Swarm.Commands.{handle_command}
use y7ke.App.{PeerId, SyncReq, SyncResp, Done, done}
use y7ke.Status.{Result, ok, err, network, DialMode}
use y7ke.Handshake.{HandshakeReq, HandshakeResp}
use y7ke.Messaging.{MessageEnvelope}
use y7ke.Ident.{Y7Id}
use y7ke.Addr.{Multiaddr}
use y7ke.Prelude.{Bool, List, Option, [], false, if◌then◌else◌, none, some, true, ℕ, ◌++◌, ◌+◌, ◌∷◌}

pub record Handle : Type 0 where
  pub queue : List NetCommand
  pub is_open : Bool
  pub next_slot : Slot

abbrev pub new_handle : Handle
new_handle = record { queue = []; is_open = true; next_slot = 0 }

-- A command to a task that has ended fails.
unfoldable pub send : NetCommand → Handle → Result Done × Handle
send c h = if h.is_open then (ok done, record h { queue = h.queue ++ c ∷ [] }) else (err network, h)

abbrev asked : Slot → Result Done × Handle → Result Slot × Handle
asked slot (ok d, h) = (ok slot, h)
asked slot (err e, h) = (err e, h)

-- The caller waits for an answer on the channel that comes back.
unfoldable pub ask : (Slot → NetCommand) → Handle → Result Slot × Handle
unfolding send
ask f h = asked h.next_slot (send (f h.next_slot) (record h { next_slot = h.next_slot + 1 }))

-- What the caller gets in the end: the answer, or an error where the task dropped the channel.
abbrev pub received : {A : Type 0} → Option (Result A) → Result A
received none = err network
received (some answer) = answer

-- A search is waited for no longer than 10 seconds.
abbrev pub received_in_time : {A : Type 0} → Bool → Option (Result A) → Result A
received_in_time true answer = received answer
received_in_time false answer = err network

unfoldable pub dial : Y7Id → Handle → Result Slot × Handle
unfolding ask
dial y7 h = ask (λ slot. NetCommand.dial y7 slot) h

unfoldable pub dial_address : Multiaddr → Handle → Result Done × Handle
unfolding send
dial_address addr h = send (NetCommand.dial_address addr) h

unfoldable pub find_peer : Y7Id → Handle → Result Slot × Handle
unfolding ask
find_peer y7 h = ask (λ slot. NetCommand.find_peer y7 slot) h

unfoldable pub send_handshake : PeerId → HandshakeReq → Handle → Result Slot × Handle
unfolding ask
send_handshake peer request h = ask (λ slot. NetCommand.send_handshake peer request slot) h

unfoldable pub send_msg : PeerId → MessageEnvelope → Handle → Result Slot × Handle
unfolding ask
send_msg peer request h = ask (λ slot. NetCommand.send_msg peer request slot) h

unfoldable pub send_sync : PeerId → SyncReq → Handle → Result Slot × Handle
unfolding ask
send_sync peer request h = ask (λ slot. NetCommand.send_sync peer request slot) h

unfoldable pub respond_handshake : ℕ → HandshakeResp → Handle → Result Done × Handle
unfolding send
respond_handshake channel response h = send (NetCommand.respond_handshake channel response) h

unfoldable pub respond_msg : ℕ → Bool → Handle → Result Done × Handle
unfolding send
respond_msg channel response h = send (NetCommand.respond_msg channel response) h

unfoldable pub respond_sync : ℕ → SyncResp → Handle → Result Done × Handle
unfolding send
respond_sync channel response h = send (NetCommand.respond_sync channel response) h

unfoldable pub update_bootstraps : List Multiaddr → Handle → Result Done × Handle
unfolding send
update_bootstraps addrs h = send (NetCommand.update_bootstraps addrs) h

unfoldable pub apply_dial_mode : DialMode → Handle → Result Done × Handle
unfolding send
apply_dial_mode mode h = send (NetCommand.apply_dial_mode mode) h

unfoldable pub check_live : Y7Id → Handle → Result Slot × Handle
unfolding ask
check_live y7 h = ask (λ slot. NetCommand.check_live y7 slot) h

unfoldable pub disconnect_peer : Y7Id → Handle → Result Done × Handle
unfolding send
disconnect_peer y7 h = send (NetCommand.disconnect_peer y7) h

-- Of a task that has ended already nothing is told.
unfoldable pub shutdown : Handle → Result Done × Handle
unfolding send
shutdown h = (ok done, (send NetCommand.shutdown h).1)

-- The handle and the task behind it, with the commands that the task has handled, the last first.
pub record System : Type 0 where
  pub handle : Handle
  pub task : TaskState
  pub handled : List NetCommand

-- The arm of the loop on a command.
abbrev pub take_command : Libp2p → List NetCommand → System → System
take_command net [] s = s
take_command net (NetCommand.shutdown ∷ rest) s = record s {
  handle = record (s.handle) { queue = []; is_open = false };
}
take_command net (c ∷ rest) s = record {
  handle = record (s.handle) { queue = rest };
  task = handle_command net c s.task;
  handled = c ∷ s.handled;
}

-- A caller's use of the handle: what it asks or tells.
pub data Use : Handle → Handle → Type 0 where
  uses_dial : (y7 : Y7Id) (h : Handle) → Use h (dial y7 h).1
  uses_dial_address : (addr : Multiaddr) (h : Handle) → Use h (dial_address addr h).1
  uses_find_peer : (y7 : Y7Id) (h : Handle) → Use h (find_peer y7 h).1
  uses_send_handshake :
      (peer : PeerId) (request : HandshakeReq) (h : Handle)
      → Use h (send_handshake peer request h).1
  uses_send_msg :
      (peer : PeerId) (request : MessageEnvelope) (h : Handle) → Use h (send_msg peer request h).1
  uses_send_sync :
      (peer : PeerId) (request : SyncReq) (h : Handle) → Use h (send_sync peer request h).1
  uses_respond_handshake :
      (channel : ℕ) (response : HandshakeResp) (h : Handle)
      → Use h (respond_handshake channel response h).1
  uses_respond_msg :
      (channel : ℕ) (response : Bool) (h : Handle) → Use h (respond_msg channel response h).1
  uses_respond_sync :
      (channel : ℕ) (response : SyncResp) (h : Handle) → Use h (respond_sync channel response h).1
  uses_update_bootstraps :
      (addrs : List Multiaddr) (h : Handle) → Use h (update_bootstraps addrs h).1
  uses_apply_dial_mode : (mode : DialMode) (h : Handle) → Use h (apply_dial_mode mode h).1
  uses_check_live : (y7 : Y7Id) (h : Handle) → Use h (check_live y7 h).1
  uses_disconnect_peer : (y7 : Y7Id) (h : Handle) → Use h (disconnect_peer y7 h).1
  uses_shutdown : (h : Handle) → Use h (shutdown h).1
