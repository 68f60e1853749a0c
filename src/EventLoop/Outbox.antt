-- ===== src/EventLoop/Outbox.antt =====
-- `drain_queue_for_peer` and `flush_pending_delete` of crates/y7ke-app/src/event_loop.rs. The peer's
-- answer to an envelope is an argument: `send_msg` fails, or the peer acknowledges or does not.
pub mod Drain
pub mod Emptied
pub mod Flush
pub mod Keeps
use y7ke.Prelude.{
  ℕ, ◌+◌, ◌-◌, ◌^◌, Bool, true, false, not, Option, none, some, List, [], ◌∷◌, ◌++◌, ◌==◌,
  if◌then◌else◌,
}
use y7ke.Ident.{Y7Id, MessageId}
use y7ke.Status.{delivered, Result, ok, err}
use y7ke.Storage.{Db}
use y7ke.Storage.SyncQueue
use y7ke.Storage.SyncQueue.{SyncQueueEntry}
use y7ke.Storage.PendingDeletes
use y7ke.Storage.PendingDeletes.{PendingDelete}
use y7ke.Storage.Messages
use y7ke.Storage.Messages.{Message}
use y7ke.Messaging.{MessageEnvelope}
use y7ke.App.{
  App, Env, Exec, Done, PeerId, ◌>>=◌, ◌>>◌, pure, finished, modify, gets, over_db, emit,
  message_status_changed,
}
use y7ke.EventLoop.{Times, next_retry_at}
use y7ke.EventLoop.Syncing.{to_envelope}

abbrev pub Network : Type 0
Network = PeerId → MessageEnvelope → Result Bool

abbrev pub i64_max : ℕ
i64_max = 2 ^ 63 - 1

abbrev pub acknowledged : Result Bool → Bool
acknowledged (ok b) = b
acknowledged (err e) = false

unfoldable pub send_msg : Network → PeerId → MessageEnvelope → Exec Bool
send_msg net peer e s =
    (ok (acknowledged (net peer e)), record s { sent = s.sent ++ (peer, e) ∷ [] })

abbrev pub dequeue : MessageId → Y7Id → Db → Db
dequeue id peer db = record db { sync_queue = SyncQueue.remove db.sync_queue id peer }

abbrev pub mark : MessageId → y7ke.Status.MessageStatus → Db → Db
mark id status db = record db { messages = Messages.update_status db.messages id status }

abbrev pub postpone : SyncQueueEntry → MessageId → Y7Id → ℕ → Db → Db
postpone entry id peer now db = record db {
  sync_queue =
      SyncQueue.bump db.sync_queue id peer (entry.attempts + 1) (next_retry_at entry.attempts now);
}

unfoldable pub drain_entry : Network → Y7Id → PeerId → ℕ → SyncQueueEntry → Exec Done
unfolding send_msg
drain_entry net peer_y7 peer now entry = do
  found ← gets (λ s. Messages.get s.db.messages entry.message_id)
  elim found [
    | none ↦ modify (over_db (dequeue entry.message_id peer_y7))
    | some m ↦ do
      acked ← send_msg net peer (to_envelope m)
      if acked
          then (do
            modify (over_db (mark m.message_id delivered))
            modify (over_db (dequeue m.message_id peer_y7))
            emit (message_status_changed m.message_id delivered))
          else modify (over_db (postpone entry m.message_id peer_y7 now))
  ]

unfoldable pub drain_entries : Network → Y7Id → PeerId → ℕ → List SyncQueueEntry → Exec Done
drain_entries net peer_y7 peer now [] = finished
drain_entries net peer_y7 peer now (e ∷ es) =
    if e.target_peer_y7_id == peer_y7
    then (do drain_entry net peer_y7 peer now e; drain_entries net peer_y7 peer now es)
    else drain_entries net peer_y7 peer now es

unfoldable pub drain_queue_for_peer : Network → Y7Id → PeerId → Bool → Times → Exec Done
drain_queue_for_peer net peer_y7 peer respect_schedule t = do
  let before = if respect_schedule then t.now else i64_max
  due ← gets (λ s. SyncQueue.due s.db.sync_queue before 256)
  drain_entries net peer_y7 peer t.now due

abbrev pub forget_delete : Y7Id → Db → Db
forget_delete peer db = record db {
  pending_deletes = PendingDeletes.remove db.pending_deletes peer;
}

abbrev pub postpone_delete : PendingDelete → Y7Id → ℕ → Db → Db
postpone_delete p peer now db = record db {
  pending_deletes =
      PendingDeletes.bump db.pending_deletes peer (p.attempts + 1) (next_retry_at p.attempts now);
}

unfoldable pub flush_one : Env → Network → Y7Id → PeerId → ℕ → PendingDelete → Exec Done
unfolding send_msg
flush_one env net peer_y7 peer now pending = elim (env.envelope_from_json pending.envelope) [
  | none ↦ modify (over_db (forget_delete peer_y7))
  | some envelope ↦ do
    acked ← send_msg net peer envelope
    if acked
        then modify (over_db (forget_delete peer_y7))
        else modify (over_db (postpone_delete pending peer_y7 now))
]

unfoldable pub flush_pending_delete : Env → Network → Y7Id → PeerId → Times → Exec Done
unfolding flush_one
flush_pending_delete env net peer_y7 peer t = do
  found ← gets (λ s. PendingDeletes.get s.db.pending_deletes peer_y7)
  elim found [ none ↦ finished | some pending ↦ flush_one env net peer_y7 peer t.now pending ]
