-- ===== src/Commands/Tests.antt =====
-- Concrete commands.
use y7ke.Commands.Listing.{IsViewOf}
use y7ke.Status.{removed}
use y7ke.Prelude.{◌↔◌}
use y7ke.Storage.Contacts.{Contact}
use y7ke.Bytes.{Bytes}
use y7ke.Commands.{Fresh, seal_control_for}
use y7ke.Commands.Deciding.{accept_request, reject_request}
use y7ke.Commands.Deciding.Outcomes.{Decided, decision-Decided, pending_request}
use y7ke.Commands.Deleting.{delete_contact, sealed_deletion}
use y7ke.Commands.Deleting.Sealed.{delete_contact-outbox, sealed_deletion-opens}
use y7ke.App.{App}
use y7ke.Commands.Listing.{contact_view, list_contacts, list_contacts-Shows}
use y7ke.EventLoop.Connections.Views.{AllInSync}
use y7ke.Map
use y7ke.Presence.{best_conn, best_of, connection_kind_precedence, default_meta, max_by_precedence}
use y7ke.Commands.Sending.{seal_text, send_message}
use y7ke.Commands.Sending.Opened.{env_of, send_message-opens}
use y7ke.Crypto.{chat_deleted}
use y7ke.EventLoop.Inbox.{open_from}
use y7ke.EventLoop.Outbox.{Network}
use y7ke.Ident.{MessageId}
use y7ke.Int.{pos, ℤ}
use y7ke.Messaging.{
  MessageEnvelope, control, derive_conv_key, hkdf_32, seal_control, seal_kind, seal_outgoing, text,
  timestamp_ms,
}
use y7ke.Prelude.{
  ==_refl, Bool-cases, In, List, Option, [], any, any-sort_by, ap, arith, false, find,
  if◌then◌else◌, inl, inr, is_some, none, refl, retain, some, sym, true, ℕ, ◌&&◌, ◌==◌, ◌||◌, ◌∙◌,
  ◌∷◌, ◌≡◌,
}
use y7ke.Samples.{app1, env1, hi, plain-CryptoLaws, request3, times1}
use y7ke.Status.{internet, ContactStatus, blocked, ok}
use y7ke.Storage.Contacts.{Contact}
use y7ke.Storage.PendingDeletes.{PendingDelete, has_peer}
use y7ke.Storage.Requests.{Request, is_pending, open_with_id, outgoing, same_direction}
use y7ke.Utf8.{valid_utf8}
use mathlib.Core.Option
use y7ke.Storage.Contacts
use y7ke.Storage.PendingDeletes
use y7ke.Storage.Requests
use y7ke.Storage.Sessions

abbrev net_up : Network
net_up peer e = ok true

abbrev fresh8 : Fresh
fresh8 = record { id = 8; nonce = 0 }

abbrev sealed : Bytes → MessageEnvelope
sealed plaintext = record {
  message_id = 8;
  sender_pub = 1;
  timestamp_ms = pos 1000;
  nonce = 0;
  ciphertext = plaintext;
  sig = 1;
}

valid_hi : valid_utf8 hi ≡ true
unfolding valid_utf8
valid_hi = refl

sends_hi : (send_message (env_of env1 1) 2 hi fresh8 times1 app1).0 ≡ ok (8, sealed (0 ∷ hi))
unfolding send_message seal_text derive_conv_key hkdf_32 seal_outgoing seal_kind timestamp_ms
    Sessions.get
sends_hi = refl

abbrev farewell : MessageId × MessageEnvelope × ℤ
farewell = (8, sealed (1 ∷ 2 ∷ []), pos 1000)

seals_farewell : seal_control_for (env_of env1 1) 2 chat_deleted fresh8 ≡ ok farewell
unfolding seal_control_for derive_conv_key hkdf_32 seal_control seal_kind timestamp_ms
seals_farewell = refl

has_session : is_some (Sessions.get app1.db.sessions 2) ≡ true
unfolding Sessions.get
has_session = refl

stashes : sealed_deletion env1 2 fresh8 ≡ some []
unfolding sealed_deletion seal_control_for derive_conv_key hkdf_32 seal_control seal_kind
    timestamp_ms
stashes = refl

pending3 : pending_request 1 app1 ≡ some request3
unfolding Requests.list_pending y7ke.Prelude.Sort.sort_by
pending3 = refl

known3 : is_some (Contacts.get app1.db.contacts 3) ≡ true
unfolding Contacts.get
known3 = refl

send_message-opens_example : open_from (env_of env1 2) (sealed (0 ∷ hi)) ≡ ok (text hi)
send_message-opens_example =
    send_message-opens env1 plain-CryptoLaws 1 2 hi fresh8 times1 app1 8 (sealed (0 ∷ hi)) valid_hi
      sends_hi

sealed_deletion-opens_example : open_from (env_of env1 2) farewell.1 ≡ ok (control chat_deleted)
sealed_deletion-opens_example =
    sealed_deletion-opens env1 plain-CryptoLaws 1 2 fresh8 farewell seals_farewell

delete_contact-outbox_example :
    let s' = (delete_contact env1 2 fresh8 times1 app1).1 in
    (Option.map (λ (p : PendingDelete). p.envelope) (PendingDeletes.get s'.db.pending_deletes 2)
      ≡ some [])
    × (Contacts.get s'.db.contacts 2 ≡ none)
    × (Sessions.get s'.db.sessions 2 ≡ none)
delete_contact-outbox_example =
    delete_contact-outbox env1 2 fresh8 times1 app1 [] has_session stashes

decision-Decided_example :
    Decided 1 request3 ContactStatus.accepted 3 app1
      (accept_request env1 net_up 1 fresh8 times1 app1)
    × Decided 1 request3 blocked 3 app1 (reject_request env1 net_up 1 fresh8 times1 app1)
decision-Decided_example =
    decision-Decided env1 net_up 1 fresh8 times1 app1 request3 3 pending3 known3

abbrev contact2 : Contact
contact2 = record {
  y7_id = 2;
  ed25519_pub = 2;
  nickname = none;
  added_at = 2;
  status = ContactStatus.accepted;
}

-- Peer 2 is a contact and connected.
abbrev app3 : App
app3 = record app1 {
  db = record (app1.db) { contacts = contact2 ∷ [] };
  presences = record (app1.presences) {
    connections =
        (2, (3, record { kind = internet; meta = default_meta; opened_at = 1 }) ∷ []) ∷ [];
    presence = (2, internet) ∷ [];
    connection_meta = (2, default_meta) ∷ [];
  };
}

app3-AllInSync : AllInSync app3
unfolding Map.get best_conn max_by_precedence connection_kind_precedence
app3-AllInSync y7 = elim (Bool-cases (2 == y7)) [
  | inl e ↦ rw e (refl, refl)
  | inr e ↦ rw e (refl, refl)
]

lists2 : In (contact_view app3.presences contact2) (list_contacts app3)
unfolding list_contacts Contacts.list y7ke.Prelude.Sort.sort_by
lists2 = inl refl

list_contacts-Shows_example : In (contact_view app3.presences contact2) (list_contacts app3) ↔ (
    (c : Contact) × In c app3.db.contacts
    × ¬ (c.status ≡ removed)
    × IsViewOf
        (best_of (Map.get c.y7_id app3.presences.connections))
        c
        (contact_view app3.presences contact2))
list_contacts-Shows_example =
    list_contacts-Shows app3 (contact_view app3.presences contact2) app3-AllInSync
