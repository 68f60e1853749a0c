-- ===== src/Storage/Contacts.antt =====
-- crates/y7ke-storage/src/dao/contacts.rs: the address book, keyed by `y7_id`. A row holds the
-- decoded values; the clock is an argument.
use y7ke.Prelude.{
  ℕ, String, Bool, true, false, not, Option, List, ◌==◌, if◌then◌else◌, any, find, sort_by,
}
use y7ke.Sql.{select, update_where, upsert}
use y7ke.Ident.{Y7Id}
use y7ke.Status.{ContactStatus, removed, Result, ok, err, not_found}

pub record Contact : Type 0 where
  pub y7_id : Y7Id
  pub ed25519_pub : ℕ
  pub nickname : Option String
  pub added_at : ℕ
  pub status : ContactStatus

pub record NewContact : Type 0 where
  pub y7_id : Y7Id
  pub ed25519_pub : ℕ
  pub nickname : Option String
  pub status : ContactStatus

abbrev pub has_id : Y7Id → Contact → Bool
has_id y7 c = c.y7_id == y7

abbrev pub new_row : NewContact → ℕ → Contact
new_row c added_at = record {
  y7_id = c.y7_id;
  ed25519_pub = c.ed25519_pub;
  nickname = c.nickname;
  added_at = added_at;
  status = c.status;
}

-- On conflict the row keeps its `added_at`; the contact that comes back has the new one.
unfoldable pub insert : List Contact → NewContact → ℕ → List Contact × Contact
insert rows c now = (
  upsert (has_id c.y7_id) (new_row c now)
      (λ old. record old { ed25519_pub = c.ed25519_pub; nickname = c.nickname; status = c.status })
      rows,
  new_row c now,
)

unfoldable pub update_status : List Contact → Y7Id → ContactStatus → Result (List Contact)
update_status rows y7 status =
    if any (has_id y7) rows
    then ok (update_where (has_id y7) (λ c. record c { status = status }) rows)
    else err not_found

unfoldable pub get : List Contact → Y7Id → Option Contact
get rows y7 = find (has_id y7) rows

abbrev pub is_removed : ContactStatus → Bool
is_removed removed = true
is_removed _ = false

unfoldable pub list : List Contact → List Contact
list rows = sort_by (λ c. c.added_at) (select (λ c. not (is_removed c.status)) rows)
