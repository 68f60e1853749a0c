-- ===== src/Ticker/Views.antt =====
-- The presence caches through a tick.
use y7ke.EventLoop.Connections.Views.{AllInSync, leave-other, publish-InSync}
use y7ke.EventLoop.Outbox.Keeps.{drain_queue-Quiet}
use y7ke.Ticker.{
  Waits, after_connected, after_relayed, count_upgrade, current_presence, demote,
  drain_due_for_connected_peer, drain_to, drop_from, drop_ids, drop_snapshot, is_accepted,
  presence_tick, snapshot, visit, visit_all, visit_kind, visit_offline,
}
use y7ke.EventLoop.{Times}
use y7ke.EventLoop.Connections.{ConnectionId, publish_presence}
use y7ke.EventLoop.Outbox.{Network}
use y7ke.Presence.{ConnEntry, Presences}
use y7ke.Presence.Cache.{InSync}
use y7ke.App.{App, Env, PeerId}
use y7ke.Reconnect.{should_dial}
use y7ke.Storage.Contacts
use y7ke.Storage.Contacts.{Contact}
use y7ke.Status.{ConnectionKind, Result, err, offline, ok, relayed}
use y7ke.Map
use y7ke.Map.{Map}
use y7ke.Ident.{Y7Id}
use y7ke.Prelude.{
  Bool, Bool-cases, List, Option, [], false, inl, inr, none, some, subst, sym, true, ◌%◌, ◌==◌, ◌∷◌,
  ◌≡◌,
}

drop_from-other :
    (ids : List ConnectionId) (y7 z : Y7Id) (found : Option (Map ConnEntry)) (p : Presences)
    → (y7 == z) ≡ false
    → InSync p z
    → InSync (drop_from ids y7 found p) z
drop_from-other ids y7 z none p e h = h
drop_from-other ids y7 z (some conns) p e h = leave-other p y7 z (drop_ids ids conns) e h

demote-AllInSync :
    (t : Times) (y7 : Y7Id) (ids : List ConnectionId) (s : App)
    → AllInSync s
    → AllInSync (demote y7 ids s)
unfolding demote drop_snapshot publish_presence
demote-AllInSync t y7 ids s h z =
    let left : App = record s { presences = drop_snapshot ids y7 s.presences } in
    publish-InSync y7 z t left
      λ e. drop_from-other ids y7 z (Map.get y7 s.presences.connections) s.presences e (h z)

drain_to-AllInSync :
    (peer : Option PeerId) (net : Network) (y7 : Y7Id) (t : Times) (s : App)
    → AllInSync s
    → AllInSync (drain_to peer net y7 t s)
drain_to-AllInSync none net y7 t s h z = h z
drain_to-AllInSync (some peer) net y7 t s h z =
    subst (λ p. InSync p z) (sym (drain_queue-Quiet net y7 peer true t s).1) (h z)

visit_offline-AllInSync :
    (w : Waits) (t : Times) (y7 : Y7Id) (s : App)
    → ((u : App) → AllInSync u → AllInSync (w.meanwhile u))
    → AllInSync s
    → AllInSync (visit_offline w t y7 s).0
unfolding visit_offline
visit_offline-AllInSync w t y7 s keeps h =
    let entry = Map.get y7 s.reconnect_backoff in
    let (b, dial_now) = should_dial entry t.instant (w.random y7 % 500) in
    let recorded = record s { reconnect_backoff = Map.put y7 b s.reconnect_backoff } in
    elim (Bool-cases (should_dial entry t.instant (w.random y7 % 500)).1) [
      | inl e ↦ rw e (keeps recorded h)
      | inr e ↦ rw e h
    ]

after_relayed-AllInSync :
    (env : Env) (net : Network) (t : Times) (y7 : Y7Id) (ids : List ConnectionId) (r : Result Bool)
    (s : App)
    → AllInSync s
    → AllInSync (after_relayed env net t y7 ids r s).0
unfolding drain_due_for_connected_peer count_upgrade
after_relayed-AllInSync env net t y7 ids (err e) s h = h
after_relayed-AllInSync env net t y7 ids (ok false) s h = demote-AllInSync t y7 ids s h
after_relayed-AllInSync env net t y7 ids (ok true) s h =
    drain_to-AllInSync (env.peer_id_from_y7 y7) net y7 t (count_upgrade y7 s) h

after_connected-AllInSync :
    (env : Env) (net : Network) (t : Times) (y7 : Y7Id) (ids : List ConnectionId) (r : Result Bool)
    (s : App)
    → AllInSync s
    → AllInSync (after_connected env net t y7 ids r s).0
unfolding drain_due_for_connected_peer
after_connected-AllInSync env net t y7 ids (err e) s h = h
after_connected-AllInSync env net t y7 ids (ok false) s h = demote-AllInSync t y7 ids s h
after_connected-AllInSync env net t y7 ids (ok true) s h =
    drain_to-AllInSync (env.peer_id_from_y7 y7) net y7 t s h

visit_kind-AllInSync :
    (env : Env) (net : Network) (w : Waits) (t : Times) (y7 : Y7Id) (kind : ConnectionKind)
    (s : App)
    → ((u : App) → AllInSync u → AllInSync (w.meanwhile u))
    → AllInSync s
    → AllInSync (visit_kind env net w t y7 kind s).0
visit_kind-AllInSync env net w t y7 offline s keeps h = visit_offline-AllInSync w t y7 s keeps h
visit_kind-AllInSync env net w t y7 relayed s keeps h =
    after_relayed-AllInSync env net t y7 (snapshot y7 s) (w.live y7) (w.meanwhile s) (keeps s h)
visit_kind-AllInSync env net w t y7 _ s keeps h =
    after_connected-AllInSync env net t y7 (snapshot y7 s) (w.live y7) (w.meanwhile s) (keeps s h)

visit-AllInSync :
    (env : Env) (net : Network) (w : Waits) (t : Times) (c : Contact) (s : App)
    → ((u : App) → AllInSync u → AllInSync (w.meanwhile u))
    → AllInSync s
    → AllInSync (visit env net w t c s).0
unfolding visit
visit-AllInSync env net w t c s keeps h = elim (Bool-cases (is_accepted c.status)) [
  | inl e ↦ rw e (visit_kind-AllInSync env net w t c.y7_id (current_presence c.y7_id s) s keeps h)
  | inr e ↦ rw e h
]

visit_all-AllInSync :
    (env : Env) (net : Network) (w : Waits) (t : Times) (contacts : List Contact) (s : App)
    → ((u : App) → AllInSync u → AllInSync (w.meanwhile u))
    → AllInSync s
    → AllInSync (visit_all env net w t contacts s).0
unfolding visit_all
visit_all-AllInSync env net w t [] s keeps h = h
visit_all-AllInSync env net w t (c ∷ contacts) s keeps h =
    visit_all-AllInSync env net w t contacts (visit env net w t c s).0 keeps
      (visit-AllInSync env net w t c s keeps h)

-- A tick of the presence ticker keeps the caches of presence in agreement with the live connections of
-- every peer, where what the other tasks do while its visits wait keeps them so, as the events of the
-- network do.
pub presence_tick-AllInSync :
    (env : Env) (net : Network) (w : Waits) (t : Times) (s : App)
    → ((u : App) → AllInSync u → AllInSync (w.meanwhile u))
    → AllInSync s
    → AllInSync (presence_tick env net w t s).0
unfolding presence_tick
presence_tick-AllInSync env net w t s keeps h =
    visit_all-AllInSync env net w t (Contacts.list s.db.contacts) s keeps h
