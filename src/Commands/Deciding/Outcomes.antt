-- ===== src/Commands/Deciding/Outcomes.antt =====
-- What a decision on a request leaves.
use y7ke.Prelude.{
  ℕ, ◌≡◌, refl, ◌∙◌, true, false, Option, none, some, List, [], ◌∷◌, ◌==◌, if◌then◌else◌, arith,
  is_some, find, any, any-sort_by, retain, ◌&&◌,
}
use y7ke.Sql.{update_where}
use y7ke.Sql.Rows.{any-find}
use y7ke.Ident.{Y7Id}
use y7ke.Status.{Result, ok, ContactStatus, blocked, RequestResolution, rejected}
use y7ke.Crypto.{accepted_request, rejected_request}
use y7ke.Storage.Contacts
use y7ke.Storage.Contacts.{Contact}
use y7ke.Storage.Requests
use y7ke.Storage.Requests.{Request, outgoing, same_direction, open_with_id, is_pending}
use y7ke.App.{App, Env}
use y7ke.EventLoop.{Times}
use y7ke.EventLoop.Outbox.{Network, send_msg}
use y7ke.EventLoop.Inbox.Delivery.{with_contact_status, get-update_status}
use y7ke.Commands.{Fresh}
use y7ke.Commands.Deciding.{
  find_request, resolve_request, set_status, send_control, deliver_control, accept_request,
  reject_request,
}
use mathlib.Core.Option

-- The pending request of an id, as the commands look it up.
abbrev pub pending_request : ℕ → App → Option Request
pending_request id s = find (λ r. r.id == id) (Requests.list_pending s.db.requests none)

send_control-db :
    (env : Env) (net : Network) (peer : Y7Id) (payload : y7ke.Crypto.ControlPayload) (fresh : Fresh)
    (s : App)
    → ((send_control env net peer payload fresh s).1.db ≡ s.db)
      × ((send_control env net peer payload fresh s).0 ≡ ok y7ke.App.done)
      × ((send_control env net peer payload fresh s).1.events ≡ s.events)
unfolding send_control deliver_control send_msg
send_control-db env net peer payload fresh s = ground arith

any-get :
    (rows : List Contact) (peer : Y7Id)
    → any (Contacts.has_id peer) rows ≡ is_some (Contacts.get rows peer)
unfolding Contacts.get
any-get rows peer = any-find (Contacts.has_id peer) rows

set_status-get :
    (peer other : Y7Id) (status : ContactStatus) (s : App)
    → is_some (Contacts.get s.db.contacts peer) ≡ true
    → ((set_status peer status s).0 ≡ ok y7ke.App.done)
      × (Contacts.get (set_status peer status s).1.db.contacts other ≡ (
          if peer == other
          then Option.map (with_contact_status status) (Contacts.get s.db.contacts other)
          else Contacts.get s.db.contacts other))
      × ((set_status peer status s).1.db.requests ≡ s.db.requests)
unfolding set_status Contacts.update_status
set_status-get peer other status s h =
    ground (arith, h, any-get s.db.contacts peer, get-update_status s.db.contacts peer other status)

any-open :
    (id : ℕ) (rows : List Request)
    → any (λ r. r.id == id) (retain (λ r. is_pending r && Requests.matches_direction none r) rows)
      ≡ any (open_with_id id) rows
any-open id [] = refl
any-open id (r ∷ rs) = ground (arith, any-open id rs)

any-listed :
    (id : ℕ) (t : Requests.Requests)
    → any (λ r. r.id == id) (Requests.list_pending t none) ≡ any (open_with_id id) t.rows
unfolding Requests.list_pending
any-listed id t =
    any-sort_by (λ (r : Request). r.created_at) (λ r. r.id == id)
      (retain (λ r. is_pending r && Requests.matches_direction none r) t.rows)
    ∙ any-open id t.rows

closes :
    (id : ℕ) (how : RequestResolution) (now : ℕ) (rows : List Request)
    → any (open_with_id id) (
        update_where
          (open_with_id id)
          (λ r. record r { resolved_at = some now; resolution = some how })
          rows)
      ≡ false
unfolding update_where
closes id how now [] = refl
closes id how now (r ∷ rs) = ground (arith, closes id how now rs)

-- Resolving a pending request ends well and leaves none pending under its id.
resolve_request-closes :
    (id : ℕ) (how : RequestResolution) (now : ℕ) (s : App) (r : Request)
    → pending_request id s ≡ some r
    → ((resolve_request id how now s).0 ≡ ok y7ke.App.done)
      × ((resolve_request id how now s).1.db.contacts ≡ s.db.contacts)
      × (any (open_with_id id) (resolve_request id how now s).1.db.requests.rows ≡ false)
unfolding resolve_request Requests.resolve
resolve_request-closes id how now s r p = ground (
  arith,
  p,
  any-find (λ (x : Request). x.id == id) (Requests.list_pending s.db.requests none),
  any-listed id s.db.requests,
  closes id how now s.db.requests.rows,
)

-- A decision that went well: the request is closed and of the contacts just the peer's has the status.
abbrev pub Decided : ℕ → Request → ContactStatus → Y7Id → App → Result y7ke.App.Done × App → Type 0
Decided id r status other s out =
    (out.0 ≡ ok y7ke.App.done)
    × (any (open_with_id id) out.1.db.requests.rows ≡ false)
    × (Contacts.get out.1.db.contacts other ≡ (
        if r.peer_y7_id == other
        then Option.map (with_contact_status status) (Contacts.get s.db.contacts other)
        else Contacts.get s.db.contacts other))

accepts :
    (env : Env) (net : Network) (id : ℕ) (fresh : Fresh) (t : Times) (s : App) (r : Request)
    (other : Y7Id)
    → pending_request id s ≡ some r
    → is_some (Contacts.get s.db.contacts r.peer_y7_id) ≡ true
    → Decided id r ContactStatus.accepted other s (accept_request env net id fresh t s)
unfolding accept_request find_request
accepts env net id fresh t s r other p k =
    let s1 : App = (resolve_request id RequestResolution.accepted t.now s).1 in
    let s2 : App = (set_status r.peer_y7_id ContactStatus.accepted s1).1 in
    ground (
      arith,
      p,
      k,
      resolve_request-closes id RequestResolution.accepted t.now s r p,
      set_status-get r.peer_y7_id other ContactStatus.accepted s1,
      send_control-db env net r.peer_y7_id accepted_request fresh s2,
    )

rejects :
    (env : Env) (net : Network) (id : ℕ) (fresh : Fresh) (t : Times) (s : App) (r : Request)
    (other : Y7Id)
    → pending_request id s ≡ some r
    → is_some (Contacts.get s.db.contacts r.peer_y7_id) ≡ true
    → Decided id r blocked other s (reject_request env net id fresh t s)
unfolding reject_request find_request
rejects env net id fresh t s r other p k =
    let s1 : App = (resolve_request id rejected t.now s).1 in
    let s2 : App = (set_status r.peer_y7_id blocked s1).1 in
    ground (
      arith,
      p,
      k,
      resolve_request-closes id rejected t.now s r p,
      set_status-get r.peer_y7_id other blocked s1,
      send_control-db env net r.peer_y7_id rejected_request fresh s2,
    )

-- To accept a pending request of a known contact makes the contact accepted and to reject it makes
-- the contact blocked, whether or not the peer can be told; the request is then closed, and no other
-- contact changes.
pub decision-Decided :
    (env : Env) (net : Network) (id : ℕ) (fresh : Fresh) (t : Times) (s : App) (r : Request)
    (other : Y7Id)
    → pending_request id s ≡ some r
    → is_some (Contacts.get s.db.contacts r.peer_y7_id) ≡ true
    → Decided id r ContactStatus.accepted other s (accept_request env net id fresh t s)
      × Decided id r blocked other s (reject_request env net id fresh t s)
decision-Decided env net id fresh t s r other p k =
    (accepts env net id fresh t s r other p k, rejects env net id fresh t s r other p k)
