-- ===== src/Commands/Listing.antt =====
-- `list_contacts` and `list_pending_requests` of crates/y7ke-app/src/app/contacts.rs, and their views of
-- crates/y7ke-app/src/views.rs. An identifier is shown as the URI of it, which the model leaves out.
use y7ke.Presence.Cache.{cached_kind, cached_meta}
use y7ke.EventLoop.Connections.Views.{AllInSync}
use y7ke.Presence.{ConnectionMeta, Presences, best_of, is_offline}
use y7ke.App.{App}
use y7ke.Storage.Contacts
use y7ke.Storage.Contacts.{Contact, is_removed}
use y7ke.Storage.Requests
use y7ke.Storage.Requests.{Request, RequestDirection}
use y7ke.Status.{
  ConnectionKind, ConnectionOrigin, ContactStatus, IpVersion, Transport, accepted, blocked, offline,
  pending_in, pending_out, removed,
}
use y7ke.Map
use y7ke.Sql.{select}
use y7ke.Sql.Rows.{In-retain}
use y7ke.Ident.{Y7Id}
use y7ke.Bytes.{Bytes}
use y7ke.Prelude.{
  In, ◌∙◌, ap, refl, false, not, In-sort_by, ◌↔◌, List, Option, String, [], arith, if◌then◌else◌,
  inl, inr, map, none, some, subst, sym, ℕ, ◌∷◌, ◌≡◌,
}

pub record ContactView : Type 0 where
  pub y7_id : Y7Id
  pub nickname : Option String
  pub status : ContactStatus
  pub added_at : ℕ
  pub presence : ConnectionKind
  pub transport : Option Transport
  pub ip_version : Option IpVersion
  pub origin : ConnectionOrigin

abbrev or_offline : Option ConnectionKind → ConnectionKind
or_offline none = offline
or_offline (some kind) = kind

abbrev transport_of : Option ConnectionMeta → Option Transport
transport_of none = none
transport_of (some m) = m.transport

abbrev ip_version_of : Option ConnectionMeta → Option IpVersion
ip_version_of none = none
ip_version_of (some m) = m.ip_version

abbrev origin_of : Option ConnectionMeta → ConnectionOrigin
origin_of none = ConnectionOrigin.unknown
origin_of (some m) = m.origin

abbrev pub contact_view : Presences → Contact → ContactView
contact_view p c =
    let meta = Map.get c.y7_id p.connection_meta in
    record {
      y7_id = c.y7_id;
      nickname = c.nickname;
      status = c.status;
      added_at = c.added_at;
      presence = or_offline (Map.get c.y7_id p.presence);
      transport = transport_of meta;
      ip_version = ip_version_of meta;
      origin = origin_of meta;
    }

unfoldable pub list_contacts : App → List ContactView
list_contacts s = map (contact_view s.presences) (Contacts.list s.db.contacts)

pub record RequestView : Type 0 where
  pub id : ℕ
  pub direction : RequestDirection
  pub peer_y7_id : Y7Id
  pub initial_text : Option Bytes
  pub created_at : ℕ

abbrev pub request_view : Request → RequestView
request_view r = record {
  id = r.id;
  direction = r.direction;
  peer_y7_id = r.peer_y7_id;
  initial_text = r.initial_text;
  created_at = r.created_at;
}

unfoldable pub list_pending_requests : App → List RequestView
list_pending_requests s = map request_view (Requests.list_pending s.db.requests none)

-- What a view shows of a peer whose best connection is given.
pub record Shows (v : ContactView) (best : ConnectionKind × ConnectionMeta) : Type 0 where
  pub kind : v.presence ≡ best.0
  pub transport : v.transport ≡ (if is_offline best.0 then none else best.1.transport)
  pub ip_version : v.ip_version ≡ (if is_offline best.0 then none else best.1.ip_version)
  pub origin : v.origin ≡ (if is_offline best.0 then ConnectionOrigin.unknown else best.1.origin)

shows_lem :
    (kind : ConnectionKind) (meta : ConnectionMeta) (p : Presences) (c : Contact)
    → Map.get c.y7_id p.presence ≡ cached_kind (kind, meta)
    → Map.get c.y7_id p.connection_meta ≡ cached_meta (kind, meta)
    → Shows (contact_view p c) (kind, meta)
shows_lem kind meta p c k m = ground (arith, k, m)

In-map :
    (p : Presences) (contacts : List Contact) (v : ContactView)
    → In v (map (contact_view p) contacts)
    → (c : Contact) × In c contacts × (v ≡ contact_view p c)
In-map p [] v m = absurd m
In-map p (c ∷ contacts) v (inl e) = (c, inl refl, e)
In-map p (c ∷ contacts) v (inr m) = let (d, i, e) = In-map p contacts v m in (d, inr i, e)

map-In :
    (p : Presences) (contacts : List Contact) (c : Contact)
    → In c contacts
    → In (contact_view p c) (map (contact_view p) contacts)
map-In p [] c m = absurd m
map-In p (d ∷ contacts) c (inl e) = inl (ap (contact_view p) e)
map-In p (d ∷ contacts) c (inr m) = inr (map-In p contacts c m)

kept_iff : (st : ContactStatus) → (is_removed st ≡ false) ↔ ¬ (st ≡ removed)
kept_iff removed = (λ h. cc, λ n. absurd (n refl))
kept_iff pending_out = (λ h e. cc, λ n. refl)
kept_iff pending_in = (λ h e. cc, λ n. refl)
kept_iff accepted = (λ h e. cc, λ n. refl)
kept_iff blocked = (λ h e. cc, λ n. refl)

listed :
    (rows : List Contact) (c : Contact)
    → In c (Contacts.list rows) ↔ (In c rows × ¬ (c.status ≡ removed))
unfolding Contacts.list
listed rows c =
    let kept = λ (c : Contact). not (is_removed c.status) in
    ground (
      arith,
      In-sort_by (λ (c : Contact). c.added_at) c (select kept rows),
      In-retain kept c rows,
      kept_iff c.status,
    )

-- A view of a contact that shows the connection that is best for it.
pub record IsViewOf (best : ConnectionKind × ConnectionMeta) (c : Contact) (v : ContactView)
    : Type 0 where
  pub y7_id : v.y7_id ≡ c.y7_id
  pub nickname : v.nickname ≡ c.nickname
  pub status : v.status ≡ c.status
  pub added_at : v.added_at ≡ c.added_at
  pub shown : Shows v best

view_lem :
    (s : App) (c : Contact)
    → AllInSync s
    → IsViewOf (best_of (Map.get c.y7_id s.presences.connections)) c (contact_view s.presences c)
view_lem s c h =
    let best = best_of (Map.get c.y7_id s.presences.connections) in
    let (k, meta) = h c.y7_id in
    record {
      y7_id = refl;
      nickname = refl;
      status = refl;
      added_at = refl;
      shown = shows_lem best.0 best.1 s.presences c k meta;
    }

shown_eq :
    (v w : ContactView) (best : ConnectionKind × ConnectionMeta)
    → Shows v best
    → Shows w best
    → (v.presence ≡ w.presence)
      × (v.transport ≡ w.transport)
      × (v.ip_version ≡ w.ip_version)
      × (v.origin ≡ w.origin)
shown_eq v w best a b = (
  a.kind ∙ sym b.kind,
  a.transport ∙ sym b.transport,
  a.ip_version ∙ sym b.ip_version,
  a.origin ∙ sym b.origin,
)

-- A contact whose best connection is known has one view.
view_unique :
    (best : ConnectionKind × ConnectionMeta) (c : Contact) (v w : ContactView)
    → IsViewOf best c v
    → IsViewOf best c w
    → v ≡ w
view_unique best c v w a b =
    let (kind, transport, ip_version, origin) = shown_eq v w best a.shown b.shown in
    λ i. record {
      y7_id = (a.y7_id ∙ sym b.y7_id) i;
      nickname = (a.nickname ∙ sym b.nickname) i;
      status = (a.status ∙ sym b.status) i;
      added_at = (a.added_at ∙ sym b.added_at) i;
      presence = kind i;
      transport = transport i;
      ip_version = ip_version i;
      origin = origin i;
    }

-- Where the caches of presence agree with the live connections, the list of contacts is of the views
-- of those contacts of the table that are not removed. The view of a contact has its id, nickname,
-- status and time, and shows its best live connection, and of one that has none that it is offline,
-- with no transport.
pub list_contacts-Shows :
    (s : App) (v : ContactView)
    → AllInSync s
    → In v (list_contacts s) ↔ (
        (c : Contact) × In c s.db.contacts
        × ¬ (c.status ≡ removed)
        × IsViewOf (best_of (Map.get c.y7_id s.presences.connections)) c v)
unfolding list_contacts
list_contacts-Shows s v h = (
  λ m.
      let (c, i, e) = In-map s.presences (Contacts.list s.db.contacts) v m in
      let (j, kept) = (listed s.db.contacts c).0 i in
      (
        c,
        j,
        kept,
        subst (IsViewOf (best_of (Map.get c.y7_id s.presences.connections)) c) (sym e)
            (view_lem s c h),
      ),
  λ (c, m, kept, view).
      let best = best_of (Map.get c.y7_id s.presences.connections) in
      subst (λ w. In w (list_contacts s))
        (view_unique best c (contact_view s.presences c) v (view_lem s c h) view)
        (map-In s.presences (Contacts.list s.db.contacts) c ((listed s.db.contacts c).1 (m, kept))),
)
