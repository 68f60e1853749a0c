-- ===== src/EventLoop/Connections/Views.antt =====
-- The presence caches through the arms on connections.
use y7ke.Prelude.{
  ℕ, ◌≡◌, refl, ◌∙◌, sym, subst, ap, Bool, true, false, Option, none, some, [], ◌∷◌, ◌==◌,
  if◌then◌else◌, arith, ==_iff, Bool-cases, inl, inr,
}
use y7ke.Map
use y7ke.Map.{Map, get-put, get-remove}
use y7ke.Ident.{Y7Id}
use y7ke.Addr.{Multiaddr}
use y7ke.Status.{ConnectionKind}
use y7ke.Presence.{Presences, ConnEntry, ConnectionMeta, refresh_presence, best_of}
use y7ke.Presence.Cache.{
  InSync, refresh_presence-InSync, refresh_presence-other, cached_kind, cached_meta,
}
use y7ke.App.{App, Env, PeerId}
use y7ke.EventLoop.{Times}
use y7ke.EventLoop.Wipe.{wiped}
use y7ke.EventLoop.Outbox.{Network, drain_queue_for_peer}
use y7ke.EventLoop.Outbox.Keeps.{drain_queue-Quiet, flush-Quiet}
use y7ke.EventLoop.Connections.{
  ConnectionId, established, upgraded, closed, leave, publish_presence, endpoint_meta, reach,
  closed_by, established_by, upgraded_by, leave_if_any, conns_of, established_entry,
}

pub publish-InSync :
    (y7 z : Y7Id) (t : Times) (s : App)
    → ((y7 == z) ≡ false → InSync s.presences z)
    → InSync (publish_presence y7 t s).1.presences z
unfolding publish_presence
publish-InSync y7 z t s h = elim (Bool-cases (y7 == z)) [
  | inl e ↦
      subst (λ w. InSync (refresh_presence s.presences y7).0 w) ((==_iff y7 z).0 e)
        (refresh_presence-InSync s.presences y7).0
  | inr e ↦
      let (kinds, metas) = refresh_presence-other s.presences y7 z e in
      let same = (refresh_presence-InSync s.presences y7).1 in
      let view = ap (λ (c : Map (Map ConnEntry)). best_of (Map.get z c)) same in
      let (k, m) = h e in
      (kinds ∙ k ∙ sym (ap cached_kind view), metas ∙ m ∙ sym (ap cached_meta view))
]

-- The connections of another peer are as they were.
established-other :
    (p : Presences) (y7 z : Y7Id) (id : ConnectionId) (kind : ConnectionKind)
    (meta : ConnectionMeta) (now : ℕ)
    → (y7 == z) ≡ false
    → InSync p z
    → InSync (established p y7 id kind meta now) z
unfolding established
established-other p y7 z id kind meta now e h = ground (
  arith,
  e,
  h,
  get-put y7 z
      (Map.put id
        (established_entry (Map.get id (conns_of (Map.get y7 p.connections))) kind meta now)
        (conns_of (Map.get y7 p.connections)))
      p.connections,
)

upgraded-other :
    (p : Presences) (y7 z : Y7Id) (id : ConnectionId) (kind : ConnectionKind) (now : ℕ)
    → (y7 == z) ≡ false
    → InSync p z
    → InSync (upgraded p y7 id kind now) z
unfolding upgraded
upgraded-other p y7 z id kind now e (k, m) = rw (get-put y7 z _ p.connections, e) (k, m)

pub leave-other :
    (p : Presences) (y7 z : Y7Id) (left : Map ConnEntry)
    → (y7 == z) ≡ false
    → InSync p z
    → InSync (leave p y7 left).0 z
unfolding leave
leave-other p y7 z [] e (k, m) = rw (get-remove y7 z p.connections, e) (k, m)
leave-other p y7 z (c ∷ cs) e (k, m) = rw (get-put y7 z (c ∷ cs) p.connections, e) (k, m)

leave_if_any-other :
    (p : Presences) (y7 z : Y7Id) (id : ConnectionId) (found : Option (Map ConnEntry))
    → (y7 == z) ≡ false
    → InSync p z
    → InSync (leave_if_any p y7 id found).0 z
unfolding leave_if_any
leave_if_any-other p y7 z id none e h = h
leave_if_any-other p y7 z id (some conns) e h = leave-other p y7 z (Map.remove id conns) e h

closed-other :
    (p : Presences) (y7 z : Y7Id) (id : ConnectionId)
    → (y7 == z) ≡ false
    → InSync p z
    → InSync (closed p y7 id).0 z
unfolding closed
closed-other p y7 z id e h = leave_if_any-other p y7 z id (Map.get y7 p.connections) e h

-- A wiped peer has no connection and no presence; the others are as they were.
pub wiped-InSync :
    (env : Env) (y7 z : Y7Id) (s : App) → InSync s.presences z → InSync (wiped env y7 s).presences z
unfolding wiped
wiped-InSync env y7 z s (k, m) = ground (
  arith,
  k,
  m,
  get-remove y7 z s.presences.presence,
  get-remove y7 z s.presences.connections,
  get-remove y7 z s.presences.connection_meta,
)

abbrev pub AllInSync : App → Type 0
AllInSync s = (y7 : Y7Id) → InSync s.presences y7

keeps_presences :
    (b : Bool) (s s' : App)
    → s'.presences ≡ s.presences
    → (if b then s' else s).presences ≡ s.presences
keeps_presences true s s' h = h
keeps_presences false s s' h = refl

pub closed_by-AllInSync :
    (o : Option Y7Id) (peer : PeerId) (id : ConnectionId) (t : Times) (s : App)
    → AllInSync s
    → AllInSync (closed_by o peer id t s).1
unfolding closed_by
closed_by-AllInSync none peer id t s h z = h z
closed_by-AllInSync (some y7) peer id t s h z = publish-InSync y7 z t _ λ e.
    subst (λ p. InSync p z) (sym (keeps_presences (closed s.presences y7 id).1 _ _ refl))
      (closed-other s.presences y7 z id e (h z))

pub reach-presences :
    (env : Env) (net : Network) (y7 : Y7Id) (peer : PeerId) (t : Times) (s : App)
    → (reach env net y7 peer t s).1.presences ≡ s.presences
unfolding reach
reach-presences env net y7 peer t s = ground (
  arith,
  drain_queue-Quiet net y7 peer false t s,
  flush-Quiet env net y7 peer t (drain_queue_for_peer net y7 peer false t s).1,
)

pub established_by-AllInSync :
    (o : Option Y7Id) (env : Env) (net : Network) (peer : PeerId) (id : ConnectionId)
    (kind : ConnectionKind) (addr : Multiaddr) (t : Times) (s : App)
    → AllInSync s
    → AllInSync (established_by o env net peer id kind addr t s).1
unfolding established_by publish_presence
established_by-AllInSync none env net peer id kind addr t s h z = h z
established_by-AllInSync (some y7) env net peer id kind addr t s h z =
    let s1 : App = record s {
      presences = established s.presences y7 id kind (endpoint_meta kind addr) t.instant;
    } in
    let s2 : App = (publish_presence y7 t s1).1 in
    let s3 : App = record s2 { reconnect_backoff = Map.remove y7 s2.reconnect_backoff } in
    subst (λ p. InSync p z) (sym (reach-presences env net y7 peer t s3))
      (publish-InSync y7 z t s1
        λ e. established-other s.presences y7 z id kind (endpoint_meta kind addr) t.instant e (h z))

pub upgraded_by-AllInSync :
    (o : Option Y7Id) (net : Network) (peer : PeerId) (id : ConnectionId) (kind : ConnectionKind)
    (t : Times) (s : App)
    → AllInSync s
    → AllInSync (upgraded_by o net peer id kind t s).1
unfolding upgraded_by publish_presence
upgraded_by-AllInSync none net peer id kind t s h z = h z
upgraded_by-AllInSync (some y7) net peer id kind t s h z =
    let s1 : App = record s {
      upgrade_backoff = Map.remove y7 s.upgrade_backoff;
      presences = upgraded s.presences y7 id kind t.instant;
    } in
    subst (λ p. InSync p z)
      (sym (drain_queue-Quiet net y7 peer false t (publish_presence y7 t s1).1).1)
      (publish-InSync y7 z t s1 λ e. upgraded-other s.presences y7 z id kind t.instant e (h z))
