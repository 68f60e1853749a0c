-- ===== src/Storage/Requests.antt =====
-- crates/y7ke-storage/src/dao/requests.rs: contact requests. A row holds the greeting in the clear;
-- its encryption at rest is not modelled. `last_id` is SQLite's AUTOINCREMENT counter, so that an
-- id is never given twice.
use y7ke.Prelude.{
  ℕ, ◌+◌, Bool, true, false, ◌&&◌, Option, none, some, List, [], ◌∷◌, ◌++◌, ◌==◌, if◌then◌else◌,
  any, is_none, sort_by,
}
use y7ke.Sql.{select, update_where}
use y7ke.Bytes.{Bytes}
use y7ke.Ident.{Y7Id}
use y7ke.Status.{RequestResolution, Result, ok, err, not_found}

pub data RequestDirection : Type 0 where
  incoming outgoing : RequestDirection

abbrev pub same_direction : RequestDirection → RequestDirection → Bool
same_direction incoming incoming = true
same_direction outgoing outgoing = true
same_direction _ _ = false

pub record Request : Type 0 where
  pub id : ℕ
  pub direction : RequestDirection
  pub peer_y7_id : Y7Id
  pub initial_text : Option Bytes
  pub created_at : ℕ
  pub resolved_at : Option ℕ
  pub resolution : Option RequestResolution

pub record NewRequest : Type 0 where
  pub direction : RequestDirection
  pub peer_y7_id : Y7Id
  pub initial_text : Option Bytes

pub record Requests : Type 0 where
  pub rows : List Request
  pub last_id : ℕ

unfoldable pub insert : Requests → NewRequest → ℕ → Requests × Request
insert t new now =
    let r : Request = record {
      id = t.last_id + 1;
      direction = new.direction;
      peer_y7_id = new.peer_y7_id;
      initial_text = new.initial_text;
      created_at = now;
      resolved_at = none;
      resolution = none;
    } in
    (record { rows = t.rows ++ r ∷ []; last_id = t.last_id + 1 }, r)

abbrev pub is_pending : Request → Bool
is_pending r = is_none r.resolved_at

abbrev pub matches_direction : Option RequestDirection → Request → Bool
matches_direction none r = true
matches_direction (some d) r = same_direction r.direction d

unfoldable pub list_pending : Requests → Option RequestDirection → List Request
list_pending t direction =
    sort_by (λ r. r.created_at) (select (λ r. is_pending r && matches_direction direction r) t.rows)

abbrev pub open_with_id : ℕ → Request → Bool
open_with_id id r = r.id == id && is_pending r

unfoldable pub resolve : Requests → ℕ → RequestResolution → ℕ → Result Requests
resolve t id resolution now =
    if any (open_with_id id) t.rows
    then ok (record t {
      rows =
          update_where (open_with_id id)
            (λ r. record r { resolved_at = some now; resolution = some resolution }) t.rows;
    })
    else err not_found
