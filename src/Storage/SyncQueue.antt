-- ===== src/Storage/SyncQueue.antt =====
-- crates/y7ke-storage/src/dao/sync_queue.rs: the outbox of messages that await an acknowledgement,
-- keyed by message and target. Rows that are due at the same time come in the order of insertion.
use y7ke.Prelude.{ℕ, Bool, ◌&&◌, List, ◌==◌, leb, take, sort_by}
use y7ke.Sql.{select, update_where, delete_where, upsert}
use y7ke.Ident.{Y7Id, MessageId}

pub record SyncQueueEntry : Type 0 where
  pub message_id : MessageId
  pub target_peer_y7_id : Y7Id
  pub attempts : ℕ
  pub next_retry_at : ℕ

abbrev pub has_key : MessageId → Y7Id → SyncQueueEntry → Bool
has_key id target e = e.message_id == id && e.target_peer_y7_id == target

unfoldable pub enqueue : List SyncQueueEntry → MessageId → Y7Id → ℕ → List SyncQueueEntry
enqueue rows id target next =
    upsert (has_key id target)
      (record { message_id = id; target_peer_y7_id = target; attempts = 0; next_retry_at = next })
      (λ e. record e { next_retry_at = next }) rows

unfoldable pub due : List SyncQueueEntry → ℕ → ℕ → List SyncQueueEntry
due rows now limit =
    take limit (sort_by (λ e. e.next_retry_at) (select (λ e. leb e.next_retry_at now) rows))

unfoldable pub bump : List SyncQueueEntry → MessageId → Y7Id → ℕ → ℕ → List SyncQueueEntry
bump rows id target attempts next =
    update_where (has_key id target) (λ e. record e { attempts = attempts; next_retry_at = next })
      rows

unfoldable pub remove : List SyncQueueEntry → MessageId → Y7Id → List SyncQueueEntry
remove rows id target = delete_where (has_key id target) rows
