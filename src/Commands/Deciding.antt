-- ===== src/Commands/Deciding.antt =====
-- `accept_request`, `reject_request`, `cancel_request`, `find_request` and `send_control` of
-- crates/y7ke-app/src/app/contacts.rs. The timeout of a send is a failure of the network.
pub mod Outcomes
use y7ke.Prelude.{
  ℕ, Bool, Option, none, some, List, [], ◌∷◌, ◌==◌, find, is_some, not, if◌then◌else◌,
}
use y7ke.Ident.{Y7Id}
use y7ke.Status.{
  Result, ok, err, not_found, invalid_input, ContactStatus, blocked, removed, RequestResolution,
  rejected, cancelled,
}
use y7ke.Crypto.{ControlPayload, accepted_request, rejected_request}
use y7ke.Storage.{Db}
use y7ke.Storage.Contacts
use y7ke.Storage.Sessions
use y7ke.Storage.Requests
use y7ke.Storage.Requests.{Request, outgoing, same_direction}
use y7ke.App.{
  App, Env, Exec, Done, ◌>>=◌, ◌>>◌, pure, fail, lift, gets, modify, finished, over_db, emit,
  request_resolved, contact_added,
}
use y7ke.EventLoop.{Times}
use y7ke.EventLoop.Outbox.{Network, send_msg}
use y7ke.Commands.{Fresh, seal_control_for}

abbrev or_not_found : Option Request → Exec Request
or_not_found none = fail not_found
or_not_found (some r) = pure r

unfoldable pub find_request : ℕ → Exec Request
find_request id s =
    or_not_found (find (λ r. r.id == id) (Requests.list_pending s.db.requests none)) s

unfoldable pub resolve_request : ℕ → RequestResolution → ℕ → Exec Done
resolve_request id how now = do
  result ← gets (λ s. Requests.resolve s.db.requests id how now)
  table ← lift result
  modify (over_db (λ db. record db { requests = table }))

unfoldable pub set_status : Y7Id → ContactStatus → Exec Done
set_status peer status = do
  result ← gets (λ s. Contacts.update_status s.db.contacts peer status)
  rows ← lift result
  modify (over_db (λ db. record db { contacts = rows }))

-- Sends the envelope where it was sealed and the peer has a PeerId; the answer is logged only.
unfoldable pub deliver_control :
    Env
    → Network
    → Y7Id
    → Result (y7ke.Ident.MessageId × y7ke.Messaging.MessageEnvelope × y7ke.Int.ℤ)
    → Exec Done
deliver_control env net peer (err e) = finished
deliver_control env net peer (ok (id, envelope, ts)) = elim (env.peer_id_from_y7 peer) [
  | none ↦ finished
  | some peer_id ↦ do acked ← send_msg net peer_id envelope; finished
]

unfoldable pub send_control : Env → Network → Y7Id → ControlPayload → Fresh → Exec Done
unfolding deliver_control
send_control env net peer payload fresh = do
  session ← gets (λ s. Sessions.get s.db.sessions peer)
  if not (is_some session)
      then finished
      else deliver_control env net peer (seal_control_for env peer payload fresh)

unfoldable pub accept_request : Env → Network → ℕ → Fresh → Times → Exec Done
unfolding find_request
accept_request env net id fresh t = do
  pending ← find_request id
  resolve_request id RequestResolution.accepted t.now
  set_status pending.peer_y7_id ContactStatus.accepted
  send_control env net pending.peer_y7_id accepted_request fresh
  emit (request_resolved pending.peer_y7_id RequestResolution.accepted)
  emit (contact_added pending.peer_y7_id)

unfoldable pub reject_request : Env → Network → ℕ → Fresh → Times → Exec Done
unfolding find_request
reject_request env net id fresh t = do
  pending ← find_request id
  resolve_request id rejected t.now
  set_status pending.peer_y7_id blocked
  send_control env net pending.peer_y7_id rejected_request fresh
  emit (request_resolved pending.peer_y7_id rejected)

unfoldable pub cancel_request : ℕ → Times → Exec Done
unfolding find_request
cancel_request id t = do
  pending ← find_request id
  if not (same_direction pending.direction outgoing) then fail invalid_input else (do
    resolve_request id cancelled t.now
    set_status pending.peer_y7_id removed
    emit (request_resolved pending.peer_y7_id cancelled))
