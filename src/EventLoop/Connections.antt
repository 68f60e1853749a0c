-- ===== src/EventLoop/Connections.antt =====
-- The arms of `dispatch` in crates/y7ke-app/src/event_loop.rs on connections: what is recorded when
-- one is established, upgraded or closed. The log lines, and the time that one of them computes, are
-- not modelled.
pub mod Views
use y7ke.Prelude.{
  ℕ, zero, suc, ◌+◌, Bool, true, false, not, Option, none, some, List, [], ◌∷◌, ◌++◌, ◌==◌,
  if◌then◌else◌, length,
}
use y7ke.Map
use y7ke.Map.{Map}
use y7ke.Bytes.{Bytes}
use y7ke.Ident.{Y7Id}
use y7ke.Addr.{
  Multiaddr, extract_relay_via_host, extract_transport, extract_ip_version, classify_origin,
}
use y7ke.Status.{ConnectionKind, ConnectionOrigin, dcutr_upgrade, ok}
use y7ke.RateLimit.{forget}
use y7ke.Presence.{
  ConnectionMeta, ConnEntry, default_meta, Presences, refresh_presence, record_transition,
  same_origin, trim,
}
use y7ke.App.{
  App, Env, Exec, Done, PeerId, ◌>>=◌, ◌>>◌, finished, modify, gets, emit, presence_changed,
}
use y7ke.EventLoop.{Times}
use y7ke.EventLoop.Outbox.{Network, drain_queue_for_peer, flush_pending_delete}

abbrev pub ConnectionId : Type 0
ConnectionId = ℕ

abbrev pub conns_of : Option (Map ConnEntry) → Map ConnEntry
conns_of none = []
conns_of (some m) = m

abbrev pub endpoint_meta : ConnectionKind → Multiaddr → ConnectionMeta
endpoint_meta kind addr = record {
  via_host = extract_relay_via_host addr;
  transport = extract_transport addr;
  ip_version = extract_ip_version addr;
  origin = classify_origin kind addr;
}

-- `and_modify(..).or_insert_with(..)`: the provenance of a hole punch outlives the endpoint's.
unfoldable pub established_entry :
    Option ConnEntry → ConnectionKind → ConnectionMeta → ℕ → ConnEntry
established_entry none kind meta now = record { kind = kind; meta = meta; opened_at = now }
established_entry (some e) kind meta now = record e {
  kind = kind;
  meta =
      (if same_origin e.meta.origin dcutr_upgrade
        then record meta { origin = e.meta.origin }
        else meta);
}

unfoldable pub established :
    Presences → Y7Id → ConnectionId → ConnectionKind → ConnectionMeta → ℕ → Presences
unfolding established_entry
established p y7 id kind meta now =
    let conns = conns_of (Map.get y7 p.connections) in
    let entry = established_entry (Map.get id conns) kind meta now in
    record p { connections = Map.put y7 (Map.put id entry conns) p.connections }

abbrev or_new : Option ConnEntry → ConnectionKind → ℕ → ConnEntry
or_new none kind now = record { kind = kind; meta = default_meta; opened_at = now }
or_new (some e) kind now = e

unfoldable pub upgraded : Presences → Y7Id → ConnectionId → ConnectionKind → ℕ → Presences
upgraded p y7 id kind now =
    let conns = conns_of (Map.get y7 p.connections) in
    let e = or_new (Map.get id conns) kind now in
    let entry : ConnEntry = record e {
      kind = kind;
      meta = record (e.meta) { origin = dcutr_upgrade };
    } in
    record p { connections = Map.put y7 (Map.put id entry conns) p.connections }

-- The peer's connections become the survivors; whether there is none comes back.
unfoldable pub leave : Presences → Y7Id → Map ConnEntry → Presences × Bool
leave p y7 [] = (record p { connections = Map.remove y7 p.connections }, true)
leave p y7 (c ∷ cs) = (record p { connections = Map.put y7 (c ∷ cs) p.connections }, false)

unfoldable pub leave_if_any :
    Presences → Y7Id → ConnectionId → Option (Map ConnEntry) → Presences × Bool
unfolding leave
leave_if_any p y7 id none = (p, true)
leave_if_any p y7 id (some conns) = leave p y7 (Map.remove id conns)

unfoldable pub closed : Presences → Y7Id → ConnectionId → Presences × Bool
unfolding leave_if_any
closed p y7 id = leave_if_any p y7 id (Map.get y7 p.connections)

-- The caches, the ring of transitions and the event, as the three arms end.
unfoldable pub publish_presence : Y7Id → Times → Exec Done
publish_presence y7 t s =
    let (p, best) = refresh_presence s.presences y7 in
    let ring = record_transition p.transition_ring y7 best.0 best.1 t.now in
    emit (presence_changed y7 best.0 best.1)
      (record s { presences = record p { transition_ring = ring } })

abbrev spawn_kick_sync : Y7Id → PeerId → Exec Done
spawn_kick_sync y7 peer = modify (λ s. record s { spawned = s.spawned ++ (y7, peer) ∷ [] })

unfoldable pub reach : Env → Network → Y7Id → PeerId → Times → Exec Done
reach env net y7 peer t = do
  drain_queue_for_peer net y7 peer false t
  flush_pending_delete env net y7 peer t
  spawn_kick_sync y7 peer

-- The arm, of the id that the PeerId has, if any.
unfoldable pub established_by :
    Option Y7Id
    → Env
    → Network
    → PeerId
    → ConnectionId
    → ConnectionKind
    → Multiaddr
    → Times
    → Exec Done
established_by none env net peer id kind addr t = finished
established_by (some y7) env net peer id kind addr t = do
  modify (λ s. record s {
    presences = established s.presences y7 id kind (endpoint_meta kind addr) t.instant;
  })
  publish_presence y7 t
  modify (λ s. record s { reconnect_backoff = Map.remove y7 s.reconnect_backoff })
  reach env net y7 peer t

unfoldable pub connection_established :
    Env → Network → PeerId → ConnectionId → ConnectionKind → Multiaddr → Times → Exec Done
unfolding established_by
connection_established env net peer id kind addr t =
    established_by (env.y7_id_from_peer_id peer) env net peer id kind addr t

unfoldable pub upgraded_by :
    Option Y7Id → Network → PeerId → ConnectionId → ConnectionKind → Times → Exec Done
upgraded_by none net peer id kind t = finished
upgraded_by (some y7) net peer id kind t = do
  modify (λ s. record s {
    upgrade_backoff = Map.remove y7 s.upgrade_backoff;
    presences = upgraded s.presences y7 id kind t.instant;
  })
  publish_presence y7 t
  drain_queue_for_peer net y7 peer false t

unfoldable pub connection_upgraded :
    Env → Network → PeerId → ConnectionId → ConnectionKind → Times → Exec Done
unfolding upgraded_by
connection_upgraded env net peer id kind t = do
  modify (λ s. record s {
    dcutr_attempts = s.dcutr_attempts + 1;
    dcutr_successes = s.dcutr_successes + 1;
  })
  upgraded_by (env.y7_id_from_peer_id peer) net peer id kind t

abbrev pub dcutr_failure_ring : ℕ
dcutr_failure_ring = 5

unfoldable pub connection_upgrade_failed : PeerId → Bytes → Exec Done
connection_upgrade_failed peer error = modify (λ s. record s {
  dcutr_attempts = s.dcutr_attempts + 1;
  dcutr_failures = s.dcutr_failures + 1;
  dcutr_recent_failures = trim dcutr_failure_ring (s.dcutr_recent_failures ++ (peer, error) ∷ []);
})

unfoldable pub closed_by : Option Y7Id → PeerId → ConnectionId → Times → Exec Done
closed_by none peer id t = finished
closed_by (some y7) peer id t = do
  gone ← gets (λ s. (closed s.presences y7 id).1)
  modify (λ s. record s { presences = (closed s.presences y7 id).0 })
  modify (λ s. record s { upgrade_backoff = Map.remove y7 s.upgrade_backoff })
  modify (λ s. if gone then record s { rate_limiter = forget s.rate_limiter peer } else s)
  publish_presence y7 t

unfoldable pub connection_closed : Env → PeerId → ConnectionId → Times → Exec Done
unfolding closed_by
connection_closed env peer id t = closed_by (env.y7_id_from_peer_id peer) peer id t
