-- ===== src/EventLoop/Inbox/Delivery.antt =====
-- The delivery of a text: what becomes of the contacts, and a message that comes twice.
use y7ke.Prelude.{
  ℕ, suc, ◌+◌, ◌∙◌, ◌≡◌, true, none, some, List, [], ◌∷◌, ◌++◌, ◌==◌, is_some, if◌then◌else◌, arith,
  ==_refl, ==_iff, Option-cases, Bool-cases, inl, inr,
}
use y7ke.Sql.{insert_or_ignore, update_where}
use y7ke.Sql.Rows.{any-find, find-append}
use y7ke.Bytes.{Bytes}
use y7ke.Ident.{Y7Id, MessageId}
use y7ke.Status.{ContactStatus, pending_out, RequestResolution, ok}
use y7ke.Storage.Contacts
use y7ke.Storage.Contacts.{Contact}
use y7ke.Storage.Requests
use y7ke.Storage.Requests.{Request}
use y7ke.Storage.Messages
use y7ke.Storage.Messages.{Message}
use y7ke.Messaging.{MessageEnvelope, text}
use y7ke.App.{
  App, msg_reply, AppEvent, message_received, request_resolved, contact_added, Env,
  conversation_from,
}
use y7ke.EventLoop.{Times}
use y7ke.EventLoop.Inbox.{
  deliver, stored, store_message, auto_promote, promote_requests, has_status,
}
use mathlib.Core.Option

-- How often the user was told of the message.
unfoldable pub count_received : MessageId → List AppEvent → ℕ
count_received id [] = 0
count_received id (message_received conv m sender ts body ∷ es) =
    if m == id then suc (count_received id es) else count_received id es
count_received id (_ ∷ es) = count_received id es

count-append :
    (id : MessageId) (es more : List AppEvent)
    → count_received id (es ++ more) ≡ count_received id es + count_received id more
unfolding count_received
count-append id [] more = ground arith
count-append id (e ∷ es) more = ground (arith, count-append id es more)

-- The loop over the requests leaves contacts and messages alone and tells of no message.
promote-keeps :
    (sender : Y7Id) (now : ℕ) (id : MessageId) (rs : List Request) (s : App)
    → let s' = (promote_requests sender now rs s).1 in
      (s'.db.contacts ≡ s.db.contacts)
      × (s'.db.messages ≡ s.db.messages)
      × (count_received id s'.events ≡ count_received id s.events)
      × ((promote_requests sender now rs s).0 ≡ ok y7ke.App.done)
unfolding promote_requests count_received
promote-keeps sender now id [] s = ground arith
promote-keeps sender now id (r ∷ rs) s = elim (Bool-cases (r.peer_y7_id == sender)) [
  | inl p ↦ rw p (
      let (c, m, n, e) = promote-keeps sender now id rs _ in
      (
        c,
        m,
        n
            ∙ ground (
              arith,
              count-append id s.events (request_resolved sender RequestResolution.accepted ∷ []),
            ),
        e,
      ))
  | inr p ↦ rw p (promote-keeps sender now id rs s)
]

abbrev pub with_contact_status : ContactStatus → Contact → Contact
with_contact_status status c = record c { status = status }

abbrev pub accept_if_out : Contact → Contact
accept_if_out c =
    if has_status pending_out (some c) then record c { status = ContactStatus.accepted } else c

pub get-update_status :
    (rows : List Contact) (y7 other : Y7Id) (status : ContactStatus)
    → Contacts.get (update_where (Contacts.has_id y7) (with_contact_status status) rows) other ≡ (
        if y7 == other
        then Option.map (with_contact_status status) (Contacts.get rows other)
        else Contacts.get rows other)
unfolding Contacts.get update_where
get-update_status [] y7 other status = ground arith
get-update_status (c ∷ cs) y7 other status = ground (arith, get-update_status cs y7 other status)

updates :
    (rows : List Contact) (y7 : Y7Id) (status : ContactStatus) (c : Contact)
    → Contacts.get rows y7 ≡ some c
    → Contacts.update_status rows y7 status
      ≡ ok (update_where (Contacts.has_id y7) (with_contact_status status) rows)
unfolding Contacts.update_status Contacts.get
updates rows y7 status c p = ground (arith, p, any-find (Contacts.has_id y7) rows)

-- What `auto_promote` does to the contacts, the messages and the count.
promotes :
    (sender other : Y7Id) (t : Times) (id : MessageId) (s : App)
    → let s' = (auto_promote sender t s).1 in
      (Contacts.get s'.db.contacts other ≡ (
        if sender == other
        then Option.map accept_if_out (Contacts.get s.db.contacts other)
        else Contacts.get s.db.contacts other))
      × (s'.db.messages ≡ s.db.messages)
      × (count_received id s'.events ≡ count_received id s.events)
      × ((auto_promote sender t s).0 ≡ ok y7ke.App.done)
unfolding auto_promote count_received
promotes sender other t id s = elim (Option-cases (Contacts.get s.db.contacts sender)) [
  | inl p ↦ ground (arith, p, ==_iff sender other)
  | inr (c, p) ↦
      let rows =
        update_where (Contacts.has_id sender) (with_contact_status ContactStatus.accepted)
          s.db.contacts in
      let s1 : App = record s { db = record (s.db) { contacts = rows } } in
      let pending = Requests.list_pending s.db.requests none in
      ground (
        arith,
        p,
        ==_iff sender other,
        updates s.db.contacts sender ContactStatus.accepted c p,
        get-update_status s.db.contacts sender other ContactStatus.accepted,
        promote-keeps sender t.now id pending s1,
        count-append id (promote_requests sender t.now pending s1).1.events
            (contact_added sender ∷ []),
      )
]

-- A text that is delivered makes an accepted contact of its sender where that contact is
-- pending_out, and changes no contact otherwise: one that waits for the user's decision stays so.
pub deliver-contacts :
    (env : Env) (e : MessageEnvelope) (t : Times) (body : Bytes) (other : Y7Id) (s : App)
    → Contacts.get (deliver env e true t (text body) s).1.db.contacts other ≡ (
        if e.sender_pub == other
        then Option.map accept_if_out (Contacts.get s.db.contacts other)
        else Contacts.get s.db.contacts other)
unfolding deliver store_message
deliver-contacts env e t body other s =
    let after : App = record s {
      db = record (s.db) { messages = (Messages.insert s.db.messages (stored env e) t.now).0 };
      replies = s.replies ++ msg_reply true ∷ [];
    } in
    let facts = promotes e.sender_pub other t e.message_id after in ground (arith, facts)

-- A text that is delivered is in the table afterwards, and one that was there already changes no
-- message; the user is told of it when it was not there, and once.
pub deliver-once :
    (env : Env) (e : MessageEnvelope) (t : Times) (body : Bytes) (s : App)
    → let s' = (deliver env e true t (text body) s).1 in
      let seen = is_some (Messages.get s.db.messages e.message_id) in
      (is_some (Messages.get s'.db.messages e.message_id) ≡ true)
      × (s'.db.messages ≡ (
          if seen
          then s.db.messages
          else s.db.messages ++ Messages.new_row (stored env e) t.now ∷ []))
      × (count_received e.message_id s'.events
          ≡ count_received e.message_id s.events + (if seen then 0 else 1))
unfolding deliver store_message Messages.insert Messages.get insert_or_ignore count_received
deliver-once env e t body s =
    let id = e.message_id in
    let row = Messages.new_row (stored env e) t.now in
    let after : App = record s {
      db = record (s.db) { messages = (Messages.insert s.db.messages (stored env e) t.now).0 };
      replies = s.replies ++ msg_reply true ∷ [];
    } in
    let facts = promotes e.sender_pub e.sender_pub t id after in
    let told =
      message_received (conversation_from env e.sender_pub) id e.sender_pub e.timestamp_ms body
      ∷ [] in
    ground (
      arith,
      facts,
      any-find (Messages.has_id id) s.db.messages,
      find-append (Messages.has_id id) s.db.messages (row ∷ []),
      ==_refl id,
      count-append id (auto_promote e.sender_pub t after).1.events told,
    )
