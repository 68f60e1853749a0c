-- ===== src/Ticker/Tests.antt =====
-- Concrete ticks: peer 2 is an accepted contact with one connection, which is gone, and connects again
-- while the visit waits.
use y7ke.Ticker.Gone.{conns, visit-keeps_new}
use y7ke.Ticker.Views.{presence_tick-AllInSync}
use y7ke.EventLoop.Dispatch.{dispatch, established}
use y7ke.EventLoop.Dispatch.Views.{dispatch-AllInSync}
use y7ke.EventLoop.Connections.Views.{AllInSync}
use y7ke.Samples.{app1, env1, times1}
use y7ke.Ticker.{Waits, current_presence, presence_tick, visit}
use y7ke.EventLoop.Outbox.{Network}
use y7ke.Presence.{
  ConnEntry, best_conn, connection_kind_precedence, default_meta, is_offline, max_by_precedence,
}
use y7ke.Presence.Cache.{InSync}
use y7ke.App.{App}
use y7ke.Storage.Contacts.{Contact}
use y7ke.Status.{accepted, internet, ok}
use y7ke.Map
use y7ke.Prelude.{
  Bool-cases, [], is_some, false, if◌then◌else◌, inl, inr, none, refl, true, ◌==◌, ◌∷◌, ◌≡◌,
}

abbrev net_up : Network
net_up peer e = ok true

abbrev contact2 : Contact
contact2 = record { y7_id = 2; ed25519_pub = 2; nickname = none; added_at = 2; status = accepted }

abbrev entry3 : ConnEntry
entry3 = record { kind = internet; meta = default_meta; opened_at = 1 }

abbrev connected : App
connected = record app1 {
  db = record (app1.db) { contacts = contact2 ∷ [] };
  presences = record (app1.presences) {
    connections = (2, (3, entry3) ∷ []) ∷ [];
    presence = (2, internet) ∷ [];
    connection_meta = (2, default_meta) ∷ [];
  };
}

abbrev connects : App → App
connects s = (dispatch env1 net_up times1 (established 2 7 internet []) s).1

abbrev waits1 : Waits
waits1 = record { live = λ y7. ok false; random = λ y7. 7; meanwhile = connects }

connected-AllInSync : AllInSync connected
unfolding Map.get best_conn max_by_precedence connection_kind_precedence
connected-AllInSync y7 = elim (Bool-cases (2 == y7)) [
  | inl e ↦ rw e (refl, refl)
  | inr e ↦ rw e (refl, refl)
]

is_connected : is_offline (current_presence 2 connected) ≡ false
unfolding Map.get
is_connected = refl

visit-keeps_new_example :
    let s' = (visit env1 net_up waits1 times1 contact2 connected).0 in
    (Map.get 7 (conns 2 s') ≡ (
      if is_some (Map.get 7 (conns 2 connected))
      then none
      else Map.get 7 (conns 2 (connects connected))))
    × InSync s'.presences 2
visit-keeps_new_example =
    visit-keeps_new env1 net_up waits1 times1 contact2 connected 7 refl is_connected refl

presence_tick-AllInSync_example : AllInSync (presence_tick env1 net_up waits1 times1 connected).0
presence_tick-AllInSync_example =
    presence_tick-AllInSync env1 net_up waits1 times1 connected
      (λ u h. dispatch-AllInSync env1 net_up times1 (established 2 7 internet []) u h)
      connected-AllInSync
