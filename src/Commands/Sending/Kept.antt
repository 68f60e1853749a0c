-- ===== src/Commands/Sending/Kept.antt =====
-- A message that was sent is delivered or queued.
use y7ke.Prelude.{
  ℕ, ◌≡◌, refl, true, false, Option, none, some, List, ◌==◌, is_some, if◌then◌else◌, arith, find,
  ==_refl, ◌||◌,
}
use y7ke.Sql.Rows.{find-upsert_self}
use y7ke.Ident.{Y7Id, MessageId}
use y7ke.Status.{delivered, ok}
use y7ke.Storage.SyncQueue
use y7ke.Storage.SyncQueue.{SyncQueueEntry, has_key}
use y7ke.Storage.Messages
use y7ke.Storage.Messages.{Message}
use y7ke.Storage.Messages.Lookup.{get-update_status}
use y7ke.Messaging.{MessageEnvelope}
use y7ke.App.{App, PeerId}
use y7ke.EventLoop.{Times, next_retry_at}
use y7ke.EventLoop.Outbox.{Network, acknowledged, send_msg}
use y7ke.EventLoop.Outbox.Drain.{queued, delivered_if}
use y7ke.Commands.Sending.{push_one}
use mathlib.Core.Option

enqueued :
    (rows : List SyncQueueEntry) (id : MessageId) (to : Y7Id) (next : ℕ)
    → is_some (find (has_key id to) (SyncQueue.enqueue rows id to next)) ≡ true
unfolding SyncQueue.enqueue
enqueued rows id to next = ground (
  arith,
  find-upsert_self (has_key id to)
      (record { message_id = id; target_peer_y7_id = to; attempts = 0; next_retry_at = next })
      (λ e. record e { next_retry_at = next }) rows (ground (arith, ==_refl id, ==_refl to))
      (λ a. refl),
)

unchanged : (o : Option Message) → Option.map (delivered_if false) o ≡ o
unchanged none = refl
unchanged (some m) = refl

-- The push of a message ends well: where the peer acknowledges it the message is delivered, and else
-- it is queued for the peer, with its status and every other message as they were.
push_one-kept :
    (net : Network) (id : MessageId) (to : Y7Id) (peer : PeerId) (e : MessageEnvelope) (t : Times)
    (s : App) (jd : MessageId)
    → let s' = (push_one net id to peer e t s).1 in
      ((push_one net id to peer e t s).0 ≡ ok y7ke.App.done)
      × (Messages.get s'.db.messages jd ≡ (
          if id == jd
          then Option.map (delivered_if (acknowledged (net peer e))) (Messages.get s.db.messages jd)
          else Messages.get s.db.messages jd))
      × ((acknowledged (net peer e) || is_some (queued id to s')) ≡ true)
unfolding push_one send_msg
push_one-kept net id to peer e t s jd = ground (
  arith,
  get-update_status s.db.messages id jd delivered,
  enqueued s.db.sync_queue id to (next_retry_at 0 t.now),
  unchanged (Messages.get s.db.messages jd),
)
