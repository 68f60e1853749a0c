-- ===== src/Storage/Sessions.antt =====
-- crates/y7ke-storage/src/dao/sessions.rs: which peers have completed a handshake.
use y7ke.Prelude.{ℕ, Bool, Option, List, ◌==◌, find}
use y7ke.Sql.{update_where, upsert}
use y7ke.Ident.{Y7Id}

pub record Session : Type 0 where
  pub peer_y7_id : Y7Id
  pub established_at : ℕ
  pub last_used_at : ℕ

abbrev pub has_peer : Y7Id → Session → Bool
has_peer peer s = s.peer_y7_id == peer

unfoldable pub upsert_session : List Session → Y7Id → ℕ → List Session
upsert_session rows peer now =
    upsert (has_peer peer) (record { peer_y7_id = peer; established_at = now; last_used_at = now })
      (λ s. record s { last_used_at = now }) rows

unfoldable pub get : List Session → Y7Id → Option Session
get rows peer = find (has_peer peer) rows

unfoldable pub touch : List Session → Y7Id → ℕ → List Session
touch rows peer now = update_where (has_peer peer) (λ s. record s { last_used_at = now }) rows
