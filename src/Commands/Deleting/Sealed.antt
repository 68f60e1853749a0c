-- ===== src/Commands/Deleting/Sealed.antt =====
-- A deletion outlives the wipe, and the peer reads it as one.
use y7ke.Prelude.{ℕ, ◌≡◌, refl, ◌∙◌, sym, ap, true, none, some, List, arith, is_some, ==_refl}
use y7ke.Sql.Rows.{find-upsert_self, find-delete_where_self}
use y7ke.Bytes.{Bytes, to_be_bytes}
use y7ke.Int.{ℤ}
use y7ke.Ident.{Y7Id, MessageId, between}
use y7ke.Status.{Result, ok, err}
use y7ke.Crypto.{Crypto, CryptoLaws, chat_deleted}
use y7ke.Storage.{wipe_peer}
use y7ke.Storage.Contacts
use y7ke.Storage.Sessions
use y7ke.Storage.PendingDeletes
use y7ke.Storage.PendingDeletes.{PendingDelete, has_peer}
use y7ke.Messaging.{MessageEnvelope, control, derive_conv_key, seal_control, seal_kind}
use y7ke.Messaging.RoundTrip.{open_envelope-seal_control, derive_conv_key_comm}
use y7ke.App.{App, Env}
use y7ke.EventLoop.{Times}
use y7ke.EventLoop.Wipe.{wiped, wipe_conversation}
use y7ke.EventLoop.Inbox.{open_from}
use y7ke.Commands.{Fresh, seal_control_for}
use y7ke.Commands.Sending.Opened.{env_of}
use y7ke.Commands.Deleting.{delete_contact, enqueue_chat_deleted, sealed_deletion}
use mathlib.Core.Option

sealed_sender :
    (c : Crypto) (me my : ℕ) (key : Bytes) (id nonce : ℕ) (x : MessageId × MessageEnvelope × ℤ)
    → seal_control c me my key chat_deleted id nonce ≡ ok x
    → (x.1.sender_pub ≡ my) × (x.0 ≡ id)
unfolding seal_control seal_kind
sealed_sender c me my key id nonce x h = ground (arith, h)

enqueued :
    (rows : List PendingDelete) (peer : Y7Id) (bytes : Bytes) (now : ℕ)
    → Option.map
        (λ (p : PendingDelete). p.envelope)
        (PendingDeletes.get (PendingDeletes.enqueue rows peer bytes now) peer)
      ≡ some bytes
unfolding PendingDeletes.get PendingDeletes.enqueue
enqueued rows peer bytes now = ground (
  arith,
  find-upsert_self (has_peer peer)
      (record { peer_y7_id = peer; envelope = bytes; attempts = 0; next_retry_at = now })
      (λ p. record p { envelope = bytes; next_retry_at = now }) rows (==_refl peer) (λ a. refl),
)

-- After a deletion of a peer with a session, whose farewell could be sealed, the contact and the
-- session are gone, and the sealed farewell is in the outbox.
pub delete_contact-outbox :
    (env : Env) (peer : Y7Id) (fresh : Fresh) (t : Times) (s : App) (bytes : Bytes)
    → is_some (Sessions.get s.db.sessions peer) ≡ true
    → sealed_deletion env peer fresh ≡ some bytes
    → let s' = (delete_contact env peer fresh t s).1 in
      (Option.map
          (λ (p : PendingDelete). p.envelope)
          (PendingDeletes.get s'.db.pending_deletes peer)
        ≡ some bytes)
      × (Contacts.get s'.db.contacts peer ≡ none)
      × (Sessions.get s'.db.sessions peer ≡ none)
unfolding delete_contact enqueue_chat_deleted wipe_conversation wiped wipe_peer Contacts.get
    Sessions.get
delete_contact-outbox env peer fresh t s bytes h p = ground (
  arith,
  h,
  p,
  enqueued s.db.pending_deletes peer bytes t.now,
  find-delete_where_self (Contacts.has_id peer) s.db.contacts,
  find-delete_where_self (Sessions.has_peer peer) s.db.sessions,
)

module _ (env : Env) (laws : CryptoLaws env.crypto) where
  -- The farewell that one app seals for a peer, the peer's app opens as a deletion of the chat.
  pub sealed_deletion-opens :
      (a b : ℕ) (fresh : Fresh) (x : MessageId × MessageEnvelope × ℤ)
      → seal_control_for (env_of env a) (env.crypto.verifying_key b) chat_deleted fresh ≡ ok x
      → open_from (env_of env b) x.1 ≡ ok (control chat_deleted)
  unfolding seal_control_for open_from
  sealed_deletion-opens a b fresh x h =
      go (derive_conv_key env.crypto a (env.crypto.verifying_key b) conv) refl
    where
      conv : Bytes
      conv =
          to_be_bytes 16
            (between env.crypto.blake3 (env.crypto.verifying_key a) (env.crypto.verifying_key b))

      go :
          (r : Result Bytes)
          → derive_conv_key env.crypto a (env.crypto.verifying_key b) conv ≡ r
          → open_from (env_of env b) x.1 ≡ ok (control chat_deleted)
      go (err e) p = ground (arith, h, p)
      go (ok key) p =
          let sealed : seal_control env.crypto a (env.crypto.verifying_key a) key chat_deleted
                fresh.id fresh.nonce
              ≡ ok x =
            ground (arith, h, p) in
          let (sender, id) =
            sealed_sender env.crypto a (env.crypto.verifying_key a) key fresh.id fresh.nonce x
              sealed in
          let mirrored : derive_conv_key env.crypto b (env.crypto.verifying_key a) conv ≡ ok key =
            sym (derive_conv_key_comm env.crypto laws a b conv) ∙ p in
          let opened =
            open_envelope-seal_control env.crypto laws a b conv key key chat_deleted fresh.id
              fresh.nonce x.1 x.2 p mirrored (sealed ∙ ap (λ i. ok (i, x.1, x.2)) id) in
          ground (arith, sender, mirrored, opened, laws.is_point-verifying_key a)
