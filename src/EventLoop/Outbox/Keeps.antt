-- ===== src/EventLoop/Outbox/Keeps.antt =====
-- What the outbox leaves alone.
use y7ke.Prelude.{ℕ, ◌≡◌, refl, Bool, List, [], ◌∷◌, arith}
use y7ke.Ident.{Y7Id}
use y7ke.Status.{ok}
use y7ke.Storage.SyncQueue.{SyncQueueEntry}
use y7ke.App.{App, Env, Exec, Done, PeerId, done}
use y7ke.EventLoop.{Times}
use y7ke.EventLoop.Outbox.{
  Network, drain_entry, drain_entries, drain_queue_for_peer, flush_pending_delete, flush_one,
  send_msg,
}

-- The handler ends well and leaves the presences and the sessions alone.
abbrev pub Quiet : Exec Done → App → Type 0
Quiet m s = ((m s).0 ≡ ok done) × ((m s).1.presences ≡ s.presences)

drain_entry-Quiet :
    (net : Network) (peer_y7 : Y7Id) (peer : PeerId) (now : ℕ) (e : SyncQueueEntry) (s : App)
    → Quiet (drain_entry net peer_y7 peer now e) s
unfolding drain_entry send_msg
drain_entry-Quiet net peer_y7 peer now e s = ground arith

drain_entries-Quiet :
    (net : Network) (peer_y7 : Y7Id) (peer : PeerId) (now : ℕ) (es : List SyncQueueEntry) (s : App)
    → Quiet (drain_entries net peer_y7 peer now es) s
unfolding drain_entries
drain_entries-Quiet net peer_y7 peer now [] s = (refl, refl)
drain_entries-Quiet net peer_y7 peer now (e ∷ es) s = ground (
  arith,
  drain_entry-Quiet net peer_y7 peer now e s,
  drain_entries-Quiet net peer_y7 peer now es s,
  drain_entries-Quiet net peer_y7 peer now es (drain_entry net peer_y7 peer now e s).1,
)

pub drain_queue-Quiet :
    (net : Network) (peer_y7 : Y7Id) (peer : PeerId) (respect : Bool) (t : Times) (s : App)
    → Quiet (drain_queue_for_peer net peer_y7 peer respect t) s
unfolding drain_queue_for_peer
drain_queue-Quiet net peer_y7 peer respect t s = drain_entries-Quiet net peer_y7 peer t.now _ s

pub flush-Quiet :
    (env : Env) (net : Network) (peer_y7 : Y7Id) (peer : PeerId) (t : Times) (s : App)
    → Quiet (flush_pending_delete env net peer_y7 peer t) s
unfolding flush_pending_delete flush_one send_msg
flush-Quiet env net peer_y7 peer t s = ground arith
