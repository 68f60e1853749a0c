-- ===== src/Storage/PendingDeletes.antt =====
-- crates/y7ke-storage/src/dao/pending_deletes.rs: one sealed `ChatDeleted` envelope for each peer,
-- kept until the peer acknowledges it.
use y7ke.Prelude.{ℕ, Bool, Option, List, ◌==◌, leb, find, take, sort_by}
use y7ke.Sql.{select, update_where, delete_where, upsert}
use y7ke.Bytes.{Bytes}
use y7ke.Ident.{Y7Id}

-- The row; `PendingDelete` of the source leaves `next_retry_at` out.
pub record PendingDelete : Type 0 where
  pub peer_y7_id : Y7Id
  pub envelope : Bytes
  pub attempts : ℕ
  pub next_retry_at : ℕ

abbrev pub has_peer : Y7Id → PendingDelete → Bool
has_peer peer p = p.peer_y7_id == peer

unfoldable pub enqueue : List PendingDelete → Y7Id → Bytes → ℕ → List PendingDelete
enqueue rows peer envelope next =
    upsert (has_peer peer)
      (record { peer_y7_id = peer; envelope = envelope; attempts = 0; next_retry_at = next })
      (λ p. record p { envelope = envelope; next_retry_at = next }) rows

unfoldable pub get : List PendingDelete → Y7Id → Option PendingDelete
get rows peer = find (has_peer peer) rows

unfoldable pub due : List PendingDelete → ℕ → ℕ → List PendingDelete
due rows now limit =
    take limit (sort_by (λ p. p.next_retry_at) (select (λ p. leb p.next_retry_at now) rows))

unfoldable pub bump : List PendingDelete → Y7Id → ℕ → ℕ → List PendingDelete
bump rows peer attempts next =
    update_where (has_peer peer) (λ p. record p { attempts = attempts; next_retry_at = next }) rows

unfoldable pub remove : List PendingDelete → Y7Id → List PendingDelete
remove rows peer = delete_where (has_peer peer) rows
