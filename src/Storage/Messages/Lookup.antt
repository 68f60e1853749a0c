-- ===== src/Storage/Messages/Lookup.antt =====
-- A message looked up after the status of one was set.
use y7ke.Prelude.{◌≡◌, some, if◌then◌else◌, arith, List, [], ◌∷◌, ◌==◌, ==_iff}
use y7ke.Sql.{update_where}
use y7ke.Sql.Rows.{find-some}
use y7ke.Ident.{MessageId}
use y7ke.Status.{MessageStatus}
use y7ke.Storage.Messages.{Message, has_id, get, update_status}
use mathlib.Core.Option

abbrev pub with_status : MessageStatus → Message → Message
with_status status m = record m { status = status }

pub get-update_status :
    (rows : List Message) (id other : MessageId) (status : MessageStatus)
    → get (update_status rows id status) other
      ≡ (if id == other then Option.map (with_status status) (get rows other) else get rows other)
unfolding get update_status update_where
get-update_status [] id other status = ground arith
get-update_status (m ∷ ms) id other status = ground (arith, get-update_status ms id other status)

pub message_id-get :
    (rows : List Message) (id : MessageId) (m : Message) → get rows id ≡ some m → m.message_id ≡ id
unfolding get
message_id-get rows id m p = ground (arith, find-some (has_id id) rows m p, ==_iff m.message_id id)
