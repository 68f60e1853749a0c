-- ===== src/EventLoop/Contacting/Surfaced.antt =====
-- What `ensure_incoming_request` leaves: the request is in the list of pending ones, once.
use y7ke.Prelude.{
  ℕ, suc, ◌+◌, ◌≡◌, refl, Bool, not, ◌&&◌, Option, none, some, List, [], ◌∷◌, ◌++◌, ◌==◌, any,
  if◌then◌else◌, arith, any-sort_by, ◌∙◌,
}
use y7ke.Sql.{select}
use y7ke.Bytes.{Bytes}
use y7ke.Ident.{Y7Id}
use y7ke.Storage.{Db}
use y7ke.Storage.Requests
use y7ke.Storage.Requests.{Request, incoming, matches_direction, is_pending, list_pending}
use y7ke.EventLoop.Contacting.{surface, from_peer}

abbrev open_from_peer : Y7Id → Request → Bool
open_from_peer y7 r = is_pending r && matches_direction (some incoming) r && from_peer y7 r

-- How many incoming requests of the peer are pending.
unfoldable pub count_open : Y7Id → List Request → ℕ
count_open y7 [] = 0
count_open y7 (r ∷ rs) = if open_from_peer y7 r then suc (count_open y7 rs) else count_open y7 rs

count-any :
    (y7 : Y7Id) (rows : List Request)
    → any (from_peer y7) (select (λ r. is_pending r && matches_direction (some incoming) r) rows)
      ≡ not (count_open y7 rows == 0)
unfolding count_open
count-any y7 [] = refl
count-any y7 (r ∷ rs) = ground (arith, count-any y7 rs)

count-append :
    (y7 : Y7Id) (rows more : List Request)
    → count_open y7 (rows ++ more) ≡ count_open y7 rows + count_open y7 more
unfolding count_open
count-append y7 [] more = ground arith
count-append y7 (r ∷ rs) more = ground (arith, count-append y7 rs more)

count-insert :
    (t : Requests.Requests) (y7 other : Y7Id) (greeting : Option Bytes) (now : ℕ)
    → let new : Requests.NewRequest = record {
      direction = incoming;
      peer_y7_id = y7;
      initial_text = greeting;
    } in
      count_open other (Requests.insert t new now).0.rows
      ≡ count_open other t.rows + (if y7 == other then 1 else 0)
unfolding Requests.insert count_open
count-insert t y7 other greeting now =
    let new : Request = record {
      id = t.last_id + 1;
      direction = incoming;
      peer_y7_id = y7;
      initial_text = greeting;
      created_at = now;
      resolved_at = none;
      resolution = none;
    } in
    ground (arith, count-append other t.rows (new ∷ []))

pending-any :
    (t : Requests.Requests) (y7 : Y7Id)
    → any (from_peer y7) (list_pending t (some incoming)) ≡ not (count_open y7 t.rows == 0)
unfolding list_pending
pending-any t y7 =
    any-sort_by (λ (r : Request). r.created_at) (from_peer y7)
      (select (λ r. is_pending r && matches_direction (some incoming) r) t.rows)
    ∙ count-any y7 t.rows

-- The row of a request of a peer, as it is new.
abbrev pub new_row : ℕ → Y7Id → Option Bytes → ℕ → Request
new_row id y7 greeting now = record {
  id = id;
  direction = incoming;
  peer_y7_id = y7;
  initial_text = greeting;
  created_at = now;
  resolved_at = none;
  resolution = none;
}

surface-rows :
    (y7 : Y7Id) (greeting : Option Bytes) (now : ℕ) (db : Db)
    → (surface y7 greeting now db).requests.rows ≡ (
        if count_open y7 db.requests.rows == 0
        then db.requests.rows ++ new_row (db.requests.last_id + 1) y7 greeting now ∷ []
        else db.requests.rows)
unfolding surface Requests.insert
surface-rows y7 greeting now db = ground (arith, pending-any db.requests y7)

-- The request of the peer is pending after it was surfaced, once where it was pending once at most; it
-- is a new row with the greeting behind the rows that there were where none was pending, and where one
-- was, no row of the requests is added, changed or lost.
pub count-surface :
    (y7 : Y7Id) (greeting : Option Bytes) (now : ℕ) (db : Db)
    → let t = db.requests in
      let t' = (surface y7 greeting now db).requests in
      (count_open y7 t'.rows ≡ (if count_open y7 t.rows == 0 then 1 else count_open y7 t.rows))
      × (t'.rows ≡ (
          if count_open y7 t.rows == 0
          then t.rows ++ new_row (t.last_id + 1) y7 greeting now ∷ []
          else t.rows))
unfolding surface
count-surface y7 greeting now db = (
  ground (arith, pending-any db.requests y7, count-insert db.requests y7 y7 greeting now),
  surface-rows y7 greeting now db,
)
