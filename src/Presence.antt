-- ===== src/Presence.antt =====
-- The presence part of crates/y7ke-app/src/app.rs: the live connections of each peer, the two
-- caches derived of them and the ring of transitions. A clock reading is an argument.
pub mod Cache
pub mod Best
pub mod Ring
use y7ke.Prelude.{
  ℕ, zero, suc, ◌-◌, Bool, true, false, ◌&&◌, Option, none, some, List, [], ◌∷◌, ◌++◌, ◌==◌, leb,
  if◌then◌else◌, length, last?,
}
use y7ke.Sql.{select}
use y7ke.Map
use y7ke.Map.{Map}
use y7ke.Ident.{Y7Id}
use y7ke.Addr.{Host}
use y7ke.Status.{
  ConnectionKind, offline, connecting, lan, internet, direct, relayed, Transport, tcp, quic,
  IpVersion, ConnectionOrigin, direct_dial, dcutr_upgrade, relay_only, public_ipv6, public_ipv4,
}

pub record ConnectionMeta : Type 0 where
  pub via_host : Option Host
  pub transport : Option Transport
  pub ip_version : Option IpVersion
  pub origin : ConnectionOrigin

pub record ConnEntry : Type 0 where
  pub kind : ConnectionKind
  pub meta : ConnectionMeta
  pub opened_at : ℕ

abbrev pub default_meta : ConnectionMeta
default_meta = record {
  via_host = none;
  transport = none;
  ip_version = none;
  origin = ConnectionOrigin.unknown;
}

pub record TransportTransition : Type 0 where
  pub y7_id : Y7Id
  pub from : Option ConnectionKind
  pub to : ConnectionKind
  pub transport : Option Transport
  pub ip_version : Option IpVersion
  pub origin : ConnectionOrigin
  pub at_ms : ℕ

unfoldable pub connection_kind_precedence : ConnectionKind → ℕ
connection_kind_precedence direct = 5
connection_kind_precedence lan = 4
connection_kind_precedence internet = 3
connection_kind_precedence relayed = 2
connection_kind_precedence connecting = 1
connection_kind_precedence offline = 0

-- `max_by_key` over the values: of two equal keys the later entry.
unfoldable pub max_by_precedence : List ConnEntry → Option ConnEntry
max_by_precedence [] = none
max_by_precedence (e ∷ es) = elim (max_by_precedence es) [
  | none ↦ some e
  | some m ↦
      if leb (connection_kind_precedence e.kind) (connection_kind_precedence m.kind)
      then some m
      else some e
]

abbrev kind_and_meta : Option ConnEntry → ConnectionKind × ConnectionMeta
kind_and_meta none = (offline, default_meta)
kind_and_meta (some e) = (e.kind, e.meta)

unfoldable pub best_conn : Map ConnEntry → ConnectionKind × ConnectionMeta
best_conn conns = kind_and_meta (max_by_precedence (Map.values conns))

pub record Presences : Type 0 where
  pub connections : Map (Map ConnEntry)
  pub presence : Map ConnectionKind
  pub connection_meta : Map ConnectionMeta
  pub transition_ring : List TransportTransition

abbrev pub best_of : Option (Map ConnEntry) → ConnectionKind × ConnectionMeta
best_of none = (offline, default_meta)
best_of (some conns) = best_conn conns

abbrev pub is_offline : ConnectionKind → Bool
is_offline offline = true
is_offline _ = false

-- The best kind and the meta of its connection come back.
unfoldable pub refresh_presence : Presences → Y7Id → Presences × (ConnectionKind × ConnectionMeta)
refresh_presence p y7 =
    let (best, meta) = best_of (Map.get y7 p.connections) in
    (
      (if is_offline best
          then record p {
            presence = Map.remove y7 p.presence;
            connection_meta = Map.remove y7 p.connection_meta;
          }
          else record p {
            presence = Map.put y7 best p.presence;
            connection_meta = Map.put y7 meta p.connection_meta;
          }),
      (best, meta),
    )

abbrev pub transition_ring_size : ℕ
transition_ring_size = 48

abbrev pub same_kind : ConnectionKind → ConnectionKind → Bool
same_kind a b = connection_kind_precedence a == connection_kind_precedence b

abbrev pub same_transport : Option Transport → Option Transport → Bool
same_transport none none = true
same_transport (some tcp) (some tcp) = true
same_transport (some quic) (some quic) = true
same_transport _ _ = false

abbrev pub origin_code : ConnectionOrigin → ℕ
origin_code direct_dial = 0
origin_code dcutr_upgrade = 1
origin_code relay_only = 2
origin_code public_ipv6 = 3
origin_code public_ipv4 = 4
origin_code ConnectionOrigin.unknown = 5

abbrev pub same_origin : ConnectionOrigin → ConnectionOrigin → Bool
same_origin a b = origin_code a == origin_code b

-- `while ring.len() > n { pop_front }`
unfoldable pub trim : {A : Type 0} → ℕ → List A → List A
trim n [] = []
trim n (x ∷ xs) = let rest = trim n xs in if leb (length (x ∷ xs)) n then x ∷ xs else rest

abbrev pub about : Y7Id → TransportTransition → Bool
about y7 t = t.y7_id == y7

abbrev pub last_to : Option TransportTransition → Option ConnectionKind
last_to none = none
last_to (some t) = some t.to

abbrev repeats : Option TransportTransition → ConnectionKind → ConnectionMeta → Bool
repeats none to meta = false
repeats (some t) to meta =
    same_kind t.to to
    && same_transport t.transport meta.transport
    && same_origin t.origin meta.origin

-- The latest entry about the peer is the last of the selected ones.
unfoldable pub record_transition :
    List TransportTransition → Y7Id → ConnectionKind → ConnectionMeta → ℕ → List TransportTransition
record_transition ring y7 to meta now =
    let previous = last? (select (about y7) ring) in
    let t : TransportTransition = record {
      y7_id = y7;
      from = last_to previous;
      to = to;
      transport = meta.transport;
      ip_version = meta.ip_version;
      origin = meta.origin;
      at_ms = now;
    } in
    if repeats previous to meta then ring else trim transition_ring_size (ring ++ t ∷ [])
