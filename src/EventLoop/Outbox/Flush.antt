-- ===== src/EventLoop/Outbox/Flush.antt =====
-- The outbox of sealed deletions: what an attempt to deliver one leaves.
use y7ke.Prelude.{
  ℕ, ◌+◌, ◌≡◌, refl, Bool, false, not, Option, none, some, List, [], ◌∷◌, ◌++◌, if◌then◌else◌,
  arith, inl, inr, Option-cases,
}
use y7ke.Sql.{update_where}
use y7ke.Sql.Rows.{find-delete_where_self}
use y7ke.Ident.{Y7Id}
use y7ke.Storage.PendingDeletes
use y7ke.Storage.PendingDeletes.{PendingDelete, has_peer}
use y7ke.Messaging.{MessageEnvelope}
use y7ke.App.{App, Env, PeerId}
use y7ke.EventLoop.{Times, next_retry_at}
use y7ke.EventLoop.Outbox.{Network, acknowledged, flush_pending_delete, flush_one, send_msg}
use mathlib.Core.Option

abbrev pub retried_delete : PendingDelete → ℕ → PendingDelete → PendingDelete
retried_delete pending now p = record p {
  attempts = pending.attempts + 1;
  next_retry_at = next_retry_at pending.attempts now;
}

get-bump :
    (rows : List PendingDelete) (peer : Y7Id) (n next : ℕ)
    → PendingDeletes.get (PendingDeletes.bump rows peer n next) peer
      ≡ Option.map
          (λ (p : PendingDelete). record p { attempts = n; next_retry_at = next })
          (PendingDeletes.get rows peer)
unfolding PendingDeletes.get PendingDeletes.bump update_where
get-bump [] peer n next = refl
get-bump (p ∷ ps) peer n next = ground (arith, get-bump ps peer n next)

get-remove :
    (rows : List PendingDelete) (peer : Y7Id)
    → PendingDeletes.get (PendingDeletes.remove rows peer) peer ≡ none
unfolding PendingDeletes.get PendingDeletes.remove
get-remove rows peer = find-delete_where_self (has_peer peer) rows

-- Whether the envelope is sent and not acknowledged.
abbrev pub refuses : Network → PeerId → Option MessageEnvelope → Bool
refuses net peer none = false
refuses net peer (some e) = not (acknowledged (net peer e))

-- An attempt to deliver the deletion that is pending for a peer sends the envelope that was sealed;
-- the deletion stays pending, for a later retry, just when the peer does not acknowledge it.
flush_pending_delete-outcome :
    (env : Env) (net : Network) (peer_y7 : Y7Id) (peer : PeerId) (t : Times) (s : App)
    (pending : PendingDelete)
    → PendingDeletes.get s.db.pending_deletes peer_y7 ≡ some pending
    → let s' = (flush_pending_delete env net peer_y7 peer t s).1 in
      let sealed = env.envelope_from_json pending.envelope in
      (PendingDeletes.get s'.db.pending_deletes peer_y7
        ≡ (if refuses net peer sealed then some (retried_delete pending t.now pending) else none))
      × (s'.sent ≡ (elim sealed [ none ↦ s.sent | some e ↦ s.sent ++ (peer, e) ∷ [] ]))
unfolding flush_pending_delete flush_one send_msg
flush_pending_delete-outcome env net peer_y7 peer t s pending p =
    let sealed = env.envelope_from_json pending.envelope in
    elim (Option-cases sealed) [
      | inl q ↦ ground (arith, p, q, get-remove s.db.pending_deletes peer_y7)
      | inr (e, q) ↦ ground (
        arith,
        p,
        q,
        get-remove s.db.pending_deletes peer_y7,
        get-bump s.db.pending_deletes peer_y7 (pending.attempts + 1)
            (next_retry_at pending.attempts t.now),
      )
    ]
