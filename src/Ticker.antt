-- ===== src/Ticker.antt =====
-- `run_presence_ticker`, `should_attempt_upgrade` and `drain_due_for_connected_peer` of
-- crates/y7ke-app/src/app.rs: a tick visits each accepted contact. What the tick asks of the swarm is
-- logged; what check_live answers, the random numbers and what the other tasks do while a visit waits
-- for the answer are parameters.
mod Gone
mod Upgrades
mod Views
mod Tests
use y7ke.EventLoop.{Times}
use y7ke.EventLoop.Connections.{ConnectionId, conns_of, leave}
use y7ke.EventLoop.Outbox.{Network, drain_queue_for_peer}
use y7ke.Presence.{ConnEntry, Presences, refresh_presence}
use y7ke.App.{App, Env, PeerId, presence_changed}
use y7ke.Reconnect.{should_dial, u32_max}
use y7ke.Storage.Contacts
use y7ke.Storage.Contacts.{Contact}
use y7ke.Status.{ConnectionKind, ContactStatus, Result, accepted, err, offline, ok, relayed}
use y7ke.Map
use y7ke.Map.{Map}
use y7ke.Ident.{Y7Id}
use y7ke.Prelude.{
  Bool, List, Option, [], false, if◌then◌else◌, ltb, min, none, some, true, ℕ, ◌%◌, ◌&&◌, ◌++◌, ◌+◌,
  ◌==◌, ◌||◌, ◌∷◌,
}

pub data TickCommand : Type 0 where
  checks_live disconnects discovers dials : Y7Id → TickCommand

pub record Waits : Type 0 where
  pub live : Y7Id → Result Bool
  pub random : Y7Id → ℕ
  pub meanwhile : App → App

unfoldable pub should_attempt_upgrade : ℕ → Bool
should_attempt_upgrade attempts =
    attempts == 0 || attempts == 5 || attempts == 10 || ltb 10 attempts && attempts % 20 == 0

abbrev pub or_offline : Option ConnectionKind → ConnectionKind
or_offline none = offline
or_offline (some kind) = kind

abbrev pub current_presence : Y7Id → App → ConnectionKind
current_presence y7 s = or_offline (Map.get y7 s.presences.presence)

unfoldable pub snapshot : Y7Id → App → List ConnectionId
snapshot y7 s = Map.keys (conns_of (Map.get y7 s.presences.connections))

unfoldable pub drop_ids : List ConnectionId → Map ConnEntry → Map ConnEntry
drop_ids [] conns = conns
drop_ids (id ∷ ids) conns = drop_ids ids (Map.remove id conns)

abbrev pub drop_from : List ConnectionId → Y7Id → Option (Map ConnEntry) → Presences → Presences
drop_from ids y7 none p = p
drop_from ids y7 (some conns) p = (leave p y7 (drop_ids ids conns)).0

unfoldable pub drop_snapshot : List ConnectionId → Y7Id → Presences → Presences
unfolding drop_ids leave
drop_snapshot ids y7 p = drop_from ids y7 (Map.get y7 p.connections) p

-- The connections of the snapshot go, and the presence is computed and told again.
unfoldable pub demote : Y7Id → List ConnectionId → App → App
unfolding drop_snapshot
demote y7 ids s =
    let (p, best) = refresh_presence (drop_snapshot ids y7 s.presences) y7 in
    record s { presences = p; events = s.events ++ presence_changed y7 best.0 best.1 ∷ [] }

abbrev pub drain_to : Option PeerId → Network → Y7Id → Times → App → App
drain_to none net y7 t s = s
drain_to (some peer) net y7 t s = (drain_queue_for_peer net y7 peer true t s).1

-- An error is logged only: what was changed before it stays.
unfoldable pub drain_due_for_connected_peer : Env → Network → Y7Id → Times → App → App
drain_due_for_connected_peer env net y7 t s = drain_to (env.peer_id_from_y7 y7) net y7 t s

abbrev pub Visit : Type 0
Visit = App × List TickCommand

abbrev pub redial : Result Bool → Y7Id → List TickCommand
redial (ok true) y7 = checks_live y7 ∷ disconnects y7 ∷ discovers y7 ∷ []
redial (ok false) y7 = checks_live y7 ∷ discovers y7 ∷ []
redial (err e) y7 = checks_live y7 ∷ discovers y7 ∷ []

unfoldable pub visit_offline : Waits → Times → Y7Id → App → Visit
visit_offline w t y7 s =
    let entry = Map.get y7 s.reconnect_backoff in
    let (b, dial_now) = should_dial entry t.instant (w.random y7 % 500) in
    let recorded = record s { reconnect_backoff = Map.put y7 b s.reconnect_backoff } in
    if dial_now then (w.meanwhile recorded, redial (w.live y7) y7) else (recorded, [])

abbrev or_zero : Option ℕ → ℕ
or_zero none = 0
or_zero (some n) = n

abbrev pub upgrade_attempts : Y7Id → App → ℕ
upgrade_attempts y7 s = or_zero (Map.get y7 s.upgrade_backoff)

unfoldable pub count_upgrade : Y7Id → App → App
count_upgrade y7 s = record s {
  upgrade_backoff = Map.put y7 (min (upgrade_attempts y7 s + 1) u32_max) s.upgrade_backoff;
}

-- The arm of a relayed peer, after the answer of check_live.
abbrev pub after_relayed :
    Env → Network → Times → Y7Id → List ConnectionId → Result Bool → App → Visit
after_relayed env net t y7 ids (err e) s = (s, [])
after_relayed env net t y7 ids (ok false) s = (demote y7 ids s, [])
after_relayed env net t y7 ids (ok true) s = (
  drain_due_for_connected_peer env net y7 t (count_upgrade y7 s),
  if should_attempt_upgrade (upgrade_attempts y7 s) then dials y7 ∷ [] else [],
)

-- The arm of a peer that is connected otherwise.
abbrev pub after_connected :
    Env → Network → Times → Y7Id → List ConnectionId → Result Bool → App → Visit
after_connected env net t y7 ids (err e) s = (s, [])
after_connected env net t y7 ids (ok false) s = (demote y7 ids s, [])
after_connected env net t y7 ids (ok true) s = (drain_due_for_connected_peer env net y7 t s, [])

abbrev pub logged : TickCommand → Visit → Visit
logged c (s, commands) = (s, c ∷ commands)

abbrev pub visit_kind : Env → Network → Waits → Times → Y7Id → ConnectionKind → App → Visit
visit_kind env net w t y7 offline s = visit_offline w t y7 s
visit_kind env net w t y7 relayed s =
    logged (checks_live y7) (after_relayed env net t y7 (snapshot y7 s) (w.live y7) (w.meanwhile s))
visit_kind env net w t y7 _ s =
    logged (checks_live y7)
      (after_connected env net t y7 (snapshot y7 s) (w.live y7) (w.meanwhile s))

abbrev pub is_accepted : ContactStatus → Bool
is_accepted accepted = true
is_accepted _ = false

unfoldable pub visit : Env → Network → Waits → Times → Contact → App → Visit
unfolding visit_offline demote count_upgrade snapshot drain_due_for_connected_peer
visit env net w t c s =
    if is_accepted c.status
    then visit_kind env net w t c.y7_id (current_presence c.y7_id s) s
    else (s, [])

abbrev pub and_then : Visit → (App → Visit) → Visit
and_then (s, commands) next = let (s', more) = next s in (s', commands ++ more)

unfoldable pub visit_all : Env → Network → Waits → Times → List Contact → App → Visit
unfolding visit
visit_all env net w t [] s = (s, [])
visit_all env net w t (c ∷ contacts) s =
    and_then (visit env net w t c s) (visit_all env net w t contacts)

unfoldable pub presence_tick : Env → Network → Waits → Times → App → Visit
unfolding visit_all
presence_tick env net w t s = visit_all env net w t (Contacts.list s.db.contacts) s
