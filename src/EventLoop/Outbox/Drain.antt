-- ===== src/EventLoop/Outbox/Drain.antt =====
-- What a drain of the queue does with the peer's entries and with those of the others.
use y7ke.Prelude.{
  ℕ, ◌+◌, ◌≡◌, refl, Bool, false, not, ◌&&◌, Option, none, some, List, [], ◌∷◌, ◌==◌, is_some,
  if◌then◌else◌, arith, find, inl, inr, Bool-cases, Option-cases, ==_refl,
}
use y7ke.Sql.{update_where, delete_where}
use y7ke.Ident.{Y7Id, MessageId}
use y7ke.Status.{delivered, ok}
use y7ke.Storage.SyncQueue
use y7ke.Storage.SyncQueue.{SyncQueueEntry, has_key}
use y7ke.Storage.Messages
use y7ke.Storage.Messages.{Message}
use y7ke.Storage.Messages.Lookup.{get-update_status, message_id-get}
use y7ke.App.{App, PeerId, done}
use y7ke.EventLoop.{Times, next_retry_at}
use y7ke.EventLoop.Syncing.{to_envelope}
use y7ke.EventLoop.Outbox.{
  Network, acknowledged, drain_entry, drain_entries, drain_queue_for_peer, send_msg,
}
use mathlib.Core.Option

-- The queue's entry of a message and a peer.
abbrev pub queued : MessageId → Y7Id → App → Option SyncQueueEntry
queued id peer s = find (has_key id peer) s.db.sync_queue

abbrev pub retried : SyncQueueEntry → ℕ → SyncQueueEntry → SyncQueueEntry
retried entry now e = record e {
  attempts = entry.attempts + 1;
  next_retry_at = next_retry_at entry.attempts now;
}

pub queued-remove :
    (rows : List SyncQueueEntry) (id jd : MessageId) (peer other : Y7Id)
    → find (has_key jd other) (SyncQueue.remove rows id peer)
      ≡ (if id == jd && peer == other then none else find (has_key jd other) rows)
unfolding SyncQueue.remove delete_where
queued-remove [] id jd peer other = ground arith
queued-remove (e ∷ es) id jd peer other = ground (arith, queued-remove es id jd peer other)

queued-bump :
    (rows : List SyncQueueEntry) (id jd : MessageId) (peer other : Y7Id) (n next : ℕ)
    → (id == jd && peer == other) ≡ false
    → find (has_key jd other) (SyncQueue.bump rows id peer n next) ≡ find (has_key jd other) rows
unfolding SyncQueue.bump update_where
queued-bump [] id jd peer other n next p = refl
queued-bump (e ∷ es) id jd peer other n next p =
    ground (arith, p, queued-bump es id jd peer other n next p)

queued-bump_self :
    (rows : List SyncQueueEntry) (id : MessageId) (peer : Y7Id) (n next : ℕ)
    → find (has_key id peer) (SyncQueue.bump rows id peer n next)
      ≡ Option.map
          (λ (e : SyncQueueEntry). record e { attempts = n; next_retry_at = next })
          (find (has_key id peer) rows)
unfolding SyncQueue.bump update_where
queued-bump_self [] id peer n next = refl
queued-bump_self (e ∷ es) id peer n next = ground (arith, queued-bump_self es id peer n next)

abbrev pub answers : Network → PeerId → Option Message → Bool
answers net peer none = false
answers net peer (some m) = acknowledged (net peer (to_envelope m))

abbrev pub delivered_if : Bool → Message → Message
delivered_if b m = if b then record m { status = delivered } else m

-- Of an entry of the queue whose message is acknowledged, the message is delivered and the entry is
-- gone; of one whose message is not, the message is as it was and the entry waits for its next
-- retry; an entry without a message is gone.
drain_entry-outcome :
    (net : Network) (peer_y7 : Y7Id) (peer : PeerId) (now : ℕ) (e : SyncQueueEntry) (s : App)
    → queued e.message_id peer_y7 s ≡ some e
    → let s' = (drain_entry net peer_y7 peer now e s).1 in
      let found = Messages.get s.db.messages e.message_id in
      (queued e.message_id peer_y7 s'
        ≡ (if is_some found && not (answers net peer found) then some (retried e now e) else none))
      × (Messages.get s'.db.messages e.message_id
          ≡ Option.map (delivered_if (answers net peer found)) found)
unfolding drain_entry send_msg
drain_entry-outcome net peer_y7 peer now e s p =
    elim (Option-cases (Messages.get s.db.messages e.message_id)) [
      | inl q ↦ ground (
        arith,
        q,
        queued-remove s.db.sync_queue e.message_id e.message_id peer_y7 peer_y7,
        ==_refl e.message_id,
        ==_refl peer_y7,
      )
      | inr (m, q) ↦ ground (
        arith,
        p,
        q,
        message_id-get s.db.messages e.message_id m q,
        queued-remove s.db.sync_queue e.message_id e.message_id peer_y7 peer_y7,
        queued-bump_self s.db.sync_queue e.message_id peer_y7 (e.attempts + 1)
            (next_retry_at e.attempts now),
        get-update_status s.db.messages e.message_id e.message_id delivered,
        ==_refl e.message_id,
        ==_refl peer_y7,
      )
    ]

-- Another key than the entry's is left as it is.
pub drain_entry-other :
    (net : Network) (peer_y7 : Y7Id) (peer : PeerId) (now : ℕ) (e : SyncQueueEntry) (jd : MessageId)
    (other : Y7Id) (s : App)
    → (e.message_id == jd && peer_y7 == other) ≡ false
    → queued jd other (drain_entry net peer_y7 peer now e s).1 ≡ queued jd other s
unfolding drain_entry send_msg
drain_entry-other net peer_y7 peer now e jd other s p =
    elim (Option-cases (Messages.get s.db.messages e.message_id)) [
      | inl q ↦ ground (arith, p, q, queued-remove s.db.sync_queue e.message_id jd peer_y7 other)
      | inr (m, q) ↦ ground (
        arith,
        p,
        q,
        message_id-get s.db.messages e.message_id m q,
        queued-remove s.db.sync_queue e.message_id jd peer_y7 other,
        queued-bump s.db.sync_queue e.message_id jd peer_y7 other (e.attempts + 1)
            (next_retry_at e.attempts now),
      )
    ]

pub drain_entry-done :
    (net : Network) (peer_y7 : Y7Id) (peer : PeerId) (now : ℕ) (e : SyncQueueEntry) (s : App)
    → (drain_entry net peer_y7 peer now e s).0 ≡ ok done
unfolding drain_entry send_msg
drain_entry-done net peer_y7 peer now e s = ground arith

drain_entries-other :
    (net : Network) (peer_y7 : Y7Id) (peer : PeerId) (now : ℕ) (jd : MessageId) (other : Y7Id)
    → (peer_y7 == other) ≡ false
    → (es : List SyncQueueEntry) (s : App)
    → queued jd other (drain_entries net peer_y7 peer now es s).1 ≡ queued jd other s
unfolding drain_entries
drain_entries-other net peer_y7 peer now jd other p [] s = refl
drain_entries-other net peer_y7 peer now jd other p (e ∷ es) s =
    elim (Bool-cases (e.target_peer_y7_id == peer_y7)) [
      | inl q ↦ ground (
        arith,
        p,
        q,
        drain_entry-done net peer_y7 peer now e s,
        drain_entry-other net peer_y7 peer now e jd other s,
        drain_entries-other net peer_y7 peer now jd other p es
            (drain_entry net peer_y7 peer now e s).1,
      )
      | inr q ↦ ground (arith, q, drain_entries-other net peer_y7 peer now jd other p es s)
    ]

-- A drain for a peer leaves every other peer's entries alone.
pub drain_queue-others :
    (net : Network) (peer_y7 : Y7Id) (peer : PeerId) (respect : Bool) (t : Times) (s : App)
    (jd : MessageId) (other : Y7Id)
    → (peer_y7 == other) ≡ false
    → queued jd other (drain_queue_for_peer net peer_y7 peer respect t s).1 ≡ queued jd other s
unfolding drain_queue_for_peer
drain_queue-others net peer_y7 peer respect t s jd other p =
    drain_entries-other net peer_y7 peer t.now jd other p _ s
