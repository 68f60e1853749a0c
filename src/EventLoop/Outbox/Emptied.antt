-- ===== src/EventLoop/Outbox/Emptied.antt =====
-- A drain that a reconnection starts, against a peer that acknowledges what it gets.
use y7ke.Prelude.{
  ℕ, zero, suc, ◌≤◌, ◌≡◌, Bool, true, false, ◌||◌, none, List, [], ◌∷◌, ◌==◌, leb, any, is_none,
  arith, In, inl, inr, Bool-cases, Option-cases, ==_refl, ==_iff, In-sort_by, In-take_or_drop, All,
  In-of_All, length, length-sort_by, length-retain-le, drop, take, sort_by, retain, le→leb,
}
use y7ke.Sql.Rows.{In-retain, find-some}
use y7ke.Ident.{Y7Id, MessageId}
use y7ke.Storage.SyncQueue
use y7ke.Storage.SyncQueue.{SyncQueueEntry, has_key}
use y7ke.Storage.Messages
use y7ke.Storage.Messages.{Message}
use y7ke.Storage.Messages.Lookup.{message_id-get}
use y7ke.Messaging.{MessageEnvelope}
use y7ke.App.{App, PeerId}
use y7ke.EventLoop.{Times}
use y7ke.EventLoop.Syncing.{to_envelope}
use y7ke.EventLoop.Outbox.{
  Network, acknowledged, drain_entry, drain_entries, drain_queue_for_peer, send_msg, i64_max,
}
use y7ke.EventLoop.Outbox.Drain.{queued, queued-remove, drain_entry-other, drain_entry-done}

module _ (net : Network) (peer_y7 : Y7Id) (peer : PeerId)
    (acks : (e : MessageEnvelope) → acknowledged (net peer e) ≡ true) where
  dequeues :
      (now : ℕ) (e : SyncQueueEntry) (s : App)
      → queued e.message_id peer_y7 (drain_entry net peer_y7 peer now e s).1 ≡ none
  unfolding drain_entry send_msg
  dequeues now e s = elim (Option-cases (Messages.get s.db.messages e.message_id)) [
    | inl q ↦ ground (
      arith,
      q,
      queued-remove s.db.sync_queue e.message_id e.message_id peer_y7 peer_y7,
      ==_refl e.message_id,
      ==_refl peer_y7,
    )
    | inr (m, q) ↦ ground (
      arith,
      q,
      acks (to_envelope m),
      message_id-get s.db.messages e.message_id m q,
      queued-remove s.db.sync_queue e.message_id e.message_id peer_y7 peer_y7,
      ==_refl e.message_id,
      ==_refl peer_y7,
    )
  ]

  -- An entry that is listed, or is not there, is not there afterwards.
  drains :
      (now : ℕ) (id : MessageId) (es : List SyncQueueEntry) (s : App)
      → (is_none (queued id peer_y7 s) || any (has_key id peer_y7) es) ≡ true
      → queued id peer_y7 (drain_entries net peer_y7 peer now es s).1 ≡ none
  unfolding drain_entries
  drains now id [] s p = ground (arith, p)
  drains now id (e ∷ es) s p =
      let s' = (drain_entry net peer_y7 peer now e s).1 in
      elim (Bool-cases (e.target_peer_y7_id == peer_y7)) [
        | inr q ↦ ground (arith, q, drains now id es s)
        | inl q ↦ elim (Bool-cases (e.message_id == id)) [
          | inl r ↦ ground (
            arith,
            q,
            dequeues now e s,
            (==_iff e.message_id id).0 r,
            drain_entry-done net peer_y7 peer now e s,
            drains now id es s',
          )
          | inr r ↦ ground (
            arith,
            q,
            r,
            p,
            drain_entry-other net peer_y7 peer now e id peer_y7 s,
            drain_entry-done net peer_y7 peer now e s,
            drains now id es s',
          )
        ]
      ]

  none_past :
      (n : ℕ) (a : SyncQueueEntry) (xs : List SyncQueueEntry) → length xs ≤ n → In a (drop n xs) → ⊥
  none_past zero a [] le h = h
  none_past (suc n) a [] le h = h
  none_past zero a (x ∷ xs) le h = ground (arith, le)
  none_past (suc n) a (x ∷ xs) le h = none_past n a xs (ground (arith, le)) h

  any_of_In :
      (p : SyncQueueEntry → Bool) (a : SyncQueueEntry) (xs : List SyncQueueEntry)
      → In a xs
      → p a ≡ true
      → any p xs ≡ true
  any_of_In p a [] h t = absurd h
  any_of_In p a (x ∷ xs) h t = ground (arith, any_of_In p a xs)

  -- A peer that reconnects and acknowledges what it gets has nothing queued afterwards, provided that
  -- the queue of all peers holds 256 entries at most.
  pub drain_queue-empties :
      (t : Times) (s : App) (id : MessageId)
      → length s.db.sync_queue ≤ 256
      → All (λ e. e.next_retry_at ≤ i64_max) s.db.sync_queue
      → queued id peer_y7 (drain_queue_for_peer net peer_y7 peer false t s).1 ≡ none
  unfolding drain_queue_for_peer SyncQueue.due
  drain_queue-empties t s id small bounded = drains t.now id _ s listed
    where
      due_now : List SyncQueueEntry
      due_now = retain (λ e. leb e.next_retry_at i64_max) s.db.sync_queue

      ordered : List SyncQueueEntry
      ordered = sort_by (λ e. e.next_retry_at) due_now

      short : length ordered ≤ 256
      short = ground (
        arith,
        small,
        length-sort_by (λ (e : SyncQueueEntry). e.next_retry_at) due_now,
        length-retain-le (λ (e : SyncQueueEntry). leb e.next_retry_at i64_max) s.db.sync_queue,
      )

      listed : (is_none (queued id peer_y7 s) || any (has_key id peer_y7) (take 256 ordered)) ≡ true
      listed = elim (Option-cases (queued id peer_y7 s)) [
        | inl p ↦ ground (arith, p)
        | inr (e, p) ↦
            let (i, k) = find-some (has_key id peer_y7) s.db.sync_queue e p in
            let in_due : In e due_now =
              (In-retain (λ (x : SyncQueueEntry). leb x.next_retry_at i64_max) e s.db.sync_queue).1
                (
                  i,
                  le→leb e.next_retry_at i64_max (
                      In-of_All (λ (x : SyncQueueEntry). x.next_retry_at ≤ i64_max) e
                        s.db.sync_queue bounded i),
                ) in
            let in_order =
              (In-sort_by (λ (x : SyncQueueEntry). x.next_retry_at) e due_now).1 in_due in
            elim (In-take_or_drop 256 e ordered in_order) [
              | inl h ↦ ground (arith, any_of_In (has_key id peer_y7) e (take 256 ordered) h k)
              | inr h ↦ absurd (none_past 256 e ordered short h)
            ]
      ]
