-- ===== src/Swarm/Finding.antt =====
-- The end of a query for a peer.
use y7ke.Swarm.{Answer, or_empty, Libp2p, Slot, TaskState, addrs_answer}
use y7ke.Swarm.Events.{
  end_query, handle_swarm_event, or_not_found, query_progressed, resolve_progress,
}
use y7ke.App.{PeerId}
use y7ke.Addr.{Multiaddr}
use y7ke.Map
use y7ke.Status.{ok, err, not_found}
use y7ke.Map.{get-remove}
use y7ke.Prelude.{
  List, Option, [], arith, none, some, true, ℕ, refl, length, ◌==◌, if◌then◌else◌, ◌++◌, ◌∷◌, ◌≡◌,
}

-- What the address book says of a peer.
abbrev pub known_of : Option (List Multiaddr) → Answer
known_of none = addrs_answer (err not_found)
known_of (some addrs) = addrs_answer (if length addrs == 0 then err not_found else ok addrs)

known_of_lem :
    (found : Option (List Multiaddr))
    → addrs_answer (or_not_found (or_empty found)) ≡ known_of found
known_of_lem none = refl
known_of_lem (some []) = refl
known_of_lem (some (a ∷ addrs)) = ground arith

-- The last step of a query answers the caller that waits for it, once, whatever the query found: with
-- the addresses that the address book has of the peer, or with NotFound where it has no entry of
-- the peer or an empty one. Then the
-- query is no longer pending, and the address book and the calls of libp2p are as they were.
pub query_progressed-answers :
    (net : Libp2p) (id : ℕ) (found : Option (List PeerId)) (target : PeerId) (slot : Slot)
    (t : TaskState)
    → Map.get id t.pending_find_peer ≡ some (target, slot)
    → let u = handle_swarm_event net (query_progressed id found true) t in
      (u.answers ≡ t.answers ++ (slot, known_of (Map.get target t.address_book)) ∷ [])
      × (Map.get id u.pending_find_peer ≡ none)
      × (u.address_book ≡ t.address_book)
      × (u.calls ≡ t.calls)
unfolding handle_swarm_event resolve_progress end_query
query_progressed-answers net id found target slot t e =
    ground
      (arith, e, get-remove id id t.pending_find_peer, known_of_lem (Map.get target t.address_book))
