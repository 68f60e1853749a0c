-- ===== src/Ticker/Gone.antt =====
-- A visit of a peer whose socket is gone.
use y7ke.Ticker.{
  Waits, checks_live, current_presence, demote, drop_from, drop_ids, drop_snapshot, snapshot, visit,
  visit_kind,
}
use y7ke.EventLoop.{Times}
use y7ke.EventLoop.Connections.{ConnectionId, conns_of, leave}
use y7ke.EventLoop.Outbox.{Network}
use y7ke.Presence.{ConnEntry, Presences, is_offline}
use y7ke.Presence.Cache.{InSync, refresh_presence-InSync}
use y7ke.App.{App, Env}
use y7ke.Storage.Contacts.{Contact}
use y7ke.Status.{ConnectionKind, accepted, connecting, direct, internet, lan, offline, ok, relayed}
use y7ke.Map
use y7ke.Map.{Map, get-put, get-remove}
use y7ke.Ident.{Y7Id}
use y7ke.Prelude.{
  List, Option, [], any, is_some, ==_iff, arith, false, if◌then◌else◌, none, refl, some, sym, ◌==◌,
  ◌∙◌, ◌∷◌, ◌≡◌,
}

abbrev pub conns : Y7Id → App → Map ConnEntry
conns y7 s = conns_of (Map.get y7 s.presences.connections)

get-drop_ids :
    (id : ConnectionId) (ids : List ConnectionId) (m : Map ConnEntry)
    → Map.get id (drop_ids ids m) ≡ (if any (λ i. i == id) ids then none else Map.get id m)
unfolding drop_ids
get-drop_ids id [] m = refl
get-drop_ids id (i ∷ ids) m =
    get-drop_ids id ids (Map.remove i m) ∙ ground (arith, get-remove i id m)

drop_ids-nil : (ids : List ConnectionId) → drop_ids ids [] ≡ []
unfolding drop_ids Map.remove
drop_ids-nil [] = refl
drop_ids-nil (i ∷ ids) = drop_ids-nil ids

leave-conns :
    (p : Presences) (y7 : Y7Id) (left : Map ConnEntry)
    → conns_of (Map.get y7 (leave p y7 left).0.connections) ≡ left
unfolding leave
leave-conns p y7 [] = ground (arith, get-remove y7 y7 p.connections)
leave-conns p y7 (c ∷ cs) = ground (arith, get-put y7 y7 (c ∷ cs) p.connections)

drop_from-conns :
    (ids : List ConnectionId) (y7 : Y7Id) (found : Option (Map ConnEntry)) (p : Presences)
    → Map.get y7 p.connections ≡ found
    → conns_of (Map.get y7 (drop_from ids y7 found p).connections) ≡ drop_ids ids (conns_of found)
drop_from-conns ids y7 none p e = rw e (sym (drop_ids-nil ids))
drop_from-conns ids y7 (some m) p e = leave-conns p y7 (drop_ids ids m)

demote-conns :
    (y7 : Y7Id) (ids : List ConnectionId) (s : App)
    → conns y7 (demote y7 ids s) ≡ drop_ids ids (conns y7 s)
unfolding demote drop_snapshot
demote-conns y7 ids s =
    let left = drop_snapshot ids y7 s.presences in
    rw (refresh_presence-InSync left y7).1
      (drop_from-conns ids y7 (Map.get y7 s.presences.connections) s.presences refl)

-- What a visit of a peer whose socket is gone does.
visit_gone :
    (env : Env) (net : Network) (w : Waits) (t : Times) (y7 : Y7Id) (kind : ConnectionKind)
    (s : App)
    → is_offline kind ≡ false
    → w.live y7 ≡ ok false
    → visit_kind env net w t y7 kind s
      ≡ (demote y7 (snapshot y7 s) (w.meanwhile s), checks_live y7 ∷ [])
visit_gone env net w t y7 offline s e gone = cc
visit_gone env net w t y7 relayed s e gone = rw gone refl
visit_gone env net w t y7 connecting s e gone = rw gone refl
visit_gone env net w t y7 lan s e gone = rw gone refl
visit_gone env net w t y7 internet s e gone = rw gone refl
visit_gone env net w t y7 direct s e gone = rw gone refl

any-keys :
    (id : ConnectionId) (m : Map ConnEntry)
    → any (λ i. i == id) (Map.keys m) ≡ is_some (Map.get id m)
unfolding Map.get
any-keys id [] = refl
any-keys id ((i, e) ∷ m) = ground (arith, any-keys id m, ==_iff i id)

snapshot-known :
    (y7 : Y7Id) (id : ConnectionId) (s : App)
    → any (λ i. i == id) (snapshot y7 s) ≡ is_some (Map.get id (conns y7 s))
unfolding snapshot
snapshot-known y7 id s = any-keys id (conns y7 s)

-- A visit of an accepted contact that is not offline, whose socket is gone, drops the connections that
-- the presences held of it before it asked, and keeps each other one that the other tasks have recorded by the time
-- that the answer came; then the presence caches of the contact agree with what is left.
pub visit-keeps_new :
    (env : Env) (net : Network) (w : Waits) (t : Times) (c : Contact) (s : App) (id : ConnectionId)
    → c.status ≡ accepted
    → is_offline (current_presence c.y7_id s) ≡ false
    → w.live c.y7_id ≡ ok false
    → let s' = (visit env net w t c s).0 in
      (Map.get id (conns c.y7_id s') ≡ (
        if is_some (Map.get id (conns c.y7_id s))
        then none
        else Map.get id (conns c.y7_id (w.meanwhile s))))
      × InSync s'.presences c.y7_id
unfolding visit
visit-keeps_new env net w t c s id e p gone =
    let ids = snapshot c.y7_id s in
    let u = w.meanwhile s in
    rw e (
      rw (visit_gone env net w t c.y7_id (current_presence c.y7_id s) s p gone) (
        rw (demote-conns c.y7_id ids u)
            (rw (get-drop_ids id ids (conns c.y7_id u)) (rw (snapshot-known c.y7_id id s) refl)),
        (refresh_presence-InSync (drop_snapshot ids c.y7_id u.presences) c.y7_id).0,
      ))
