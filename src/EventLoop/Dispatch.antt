-- ===== src/EventLoop/Dispatch.antt =====
-- `dispatch` of crates/y7ke-app/src/event_loop.rs: the events of the network and their handlers,
-- and the arm of `run` on an event.
pub mod Views
use y7ke.Prelude.{ℕ, Bool, Option, none, some, List, [], ◌∷◌, ◌++◌, is_some, if◌then◌else◌}
use y7ke.Bytes.{Bytes}
use y7ke.Ident.{Y7Id}
use y7ke.Addr.{Multiaddr}
use y7ke.Status.{ConnectionKind, Result, ok, err}
use y7ke.Storage.{Db}
use y7ke.Storage.Contacts
use y7ke.Storage.PeerStates
use y7ke.Handshake.{HandshakeReq}
use y7ke.Messaging.{MessageEnvelope}
use y7ke.App.{
  App, background_error, Env, Exec, Done, PeerId, ◌>>=◌, ◌>>◌, finished, modify, gets, over_db,
  SyncReq,
}
use y7ke.EventLoop.{Times}
use y7ke.EventLoop.Contacting.{handle_handshake}
use y7ke.EventLoop.Inbox.{handle_msg}
use y7ke.EventLoop.Syncing.{handle_sync}
use y7ke.EventLoop.Nat.{handle_nat_status}
use y7ke.EventLoop.Outbox.{Network}
use y7ke.EventLoop.Connections.{
  ConnectionId, reach, connection_established, connection_upgraded, connection_upgrade_failed,
  connection_closed,
}

-- A request carries its response channel, open or taken; a handshake also the secret drawn for it.
pub data NetEvent : Type 0 where
  listening : NetEvent
  peer_discovered : PeerId → List Multiaddr → Option Y7Id → NetEvent
  established : PeerId → ConnectionId → ConnectionKind → Multiaddr → NetEvent
  upgraded : PeerId → ConnectionId → ConnectionKind → NetEvent
  upgrade_failed : PeerId → Bytes → NetEvent
  closed : PeerId → ConnectionId → NetEvent
  handshake_received : PeerId → HandshakeReq → Bool → ℕ → NetEvent
  msg_received : PeerId → MessageEnvelope → Bool → NetEvent
  sync_received : PeerId → SyncReq → Bool → NetEvent
  nat_probe : Bool → NetEvent
  net_error : NetEvent

abbrev see : Y7Id → Bytes → ℕ → Db → Db
see y7 json now db = record db {
  peer_state = PeerStates.upsert_seen db.peer_state y7 (some json) now;
}

-- The addresses of a known contact are kept for later dials.
unfoldable pub remember_addrs : Env → Y7Id → List Multiaddr → ℕ → Exec Done
remember_addrs env y7 [] now = finished
remember_addrs env y7 (a ∷ rest) now = do
  contact ← gets (λ s. Contacts.get s.db.contacts y7)
  if is_some contact
      then elim (env.addrs_to_json (a ∷ rest)) [
        | none ↦ finished
        | some json ↦ modify (over_db (see y7 json now))
      ]
      else finished

unfoldable pub dispatch : Env → Network → Times → NetEvent → Exec Done
dispatch env net t listening = finished
dispatch env net t (peer_discovered peer addrs none) = finished
dispatch env net t (peer_discovered peer addrs (some y7)) = do
  remember_addrs env y7 addrs t.now
  reach env net y7 peer t
dispatch env net t (established peer id kind addr) =
    connection_established env net peer id kind addr t
dispatch env net t (upgraded peer id kind) = connection_upgraded env net peer id kind t
dispatch env net t (upgrade_failed peer error) = connection_upgrade_failed peer error
dispatch env net t (closed peer id) = connection_closed env peer id t
dispatch env net t (handshake_received peer request channel eph) =
    handle_handshake env peer request channel eph t
dispatch env net t (msg_received peer envelope channel) = handle_msg env peer envelope channel t
dispatch env net t (sync_received peer request channel) = handle_sync env peer request channel t
dispatch env net t (nat_probe reachable) = handle_nat_status reachable
dispatch env net t net_error = finished

-- What the loop of `run` does with the outcome: a failure is told to the user.
abbrev pub tell_failure : Result Done × App → App
tell_failure (ok d, s) = s
tell_failure (err e, s) = record s { events = s.events ++ background_error ∷ [] }

unfoldable pub run_event : Env → Network → Times → NetEvent → App → App
unfolding dispatch
run_event env net t event s = tell_failure (dispatch env net t event s)
