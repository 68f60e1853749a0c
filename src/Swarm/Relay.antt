-- ===== src/Swarm/Relay.antt =====
-- The reservation of a circuit through a bootstrap.
use y7ke.Swarm.{Libp2p, TaskState, call, listened}
use y7ke.Swarm.Events.{
  circuit_through, pop_p2p, connection_closed, forget_connection, handle_swarm_event, reserve,
  reserved, start_circuit,
}
use y7ke.Addr.{Multiaddr, p2p, p2p_circuit}
use y7ke.App.{PeerId}
use y7ke.Status.{internet_mode}
use y7ke.Map
use y7ke.Map.{get-put, get-remove}
use y7ke.Prelude.{
  List, [], any, arith, false, is_some, none, not, refl, retain, some, true, ℕ, Bool, ap, inl, inr,
  ◌⊎◌, ◌∙◌, ◌++◌, ◌==◌, ◌∷◌, ◌≡◌,
}

-- A bootstrap to which no circuit is held, in the mode Internet.
pub record IsUnreserved (peer : PeerId) (t : TaskState) : Type 0 where
  pub mode : t.dial_mode ≡ internet_mode
  pub bootstrap : is_some (Map.get peer t.bootstrap_peers) ≡ true
  pub unreserved : reserved peer t ≡ false

any-retain :
    (peer : PeerId) (ps : List PeerId)
    → any (λ p. p == peer) (retain (λ p. not (p == peer)) ps) ≡ false
any-retain peer [] = refl
any-retain peer (p ∷ ps) = ground (arith, any-retain peer ps)

reserve_started :
    (net : Libp2p) (peer : PeerId) (addr : Multiaddr) (listener : ℕ) (t : TaskState)
    → IsUnreserved peer t
    → net.listener t.calls ≡ some listener
    → reserve net peer false addr t
      ≡ start_circuit (some listener) peer (call (listened (circuit_through peer addr)) t)
unfolding reserve
reserve_started net peer addr listener t h e = ground (arith, h, e)

-- Whether an address ends in the hop of a peer.
abbrev pub ends_in_peer : Multiaddr → Bool
ends_in_peer [] = false
ends_in_peer (p2p q ∷ []) = true
ends_in_peer (p ∷ ps) = ends_in_peer ps

pop_p2p-base : (base : Multiaddr) → ends_in_peer base ≡ false → pop_p2p base ≡ base
unfolding pop_p2p
pop_p2p-base [] h = refl
pop_p2p-base (p2p q ∷ []) h = cc
pop_p2p-base (p2p q ∷ p ∷ ps) h = ap (λ a. p2p q ∷ a) (pop_p2p-base (p ∷ ps) h)
pop_p2p-base (p ∷ ps) h = ap (λ a. p ∷ a) (pop_p2p-base ps h)

pop_p2p-snoc : (base : Multiaddr) (q : PeerId) → pop_p2p (base ++ p2p q ∷ []) ≡ base
unfolding pop_p2p
pop_p2p-snoc [] q = refl
pop_p2p-snoc (p2p r ∷ []) q = refl
pop_p2p-snoc (p2p r ∷ p ∷ ps) q = ap (λ a. p2p r ∷ a) (pop_p2p-snoc (p ∷ ps) q)
pop_p2p-snoc (p ∷ ps) q = ap (λ a. p ∷ a) (pop_p2p-snoc ps q)

-- An address of a peer: one that ends in no peer's hop, alone or with such a hop behind it.
abbrev pub IsAddrOver : Multiaddr → Multiaddr → Type 0
IsAddrOver base addr = (addr ≡ base) ⊎ (q : PeerId) × (addr ≡ base ++ p2p q ∷ [])

circuit_lem :
    (peer : PeerId) (base addr : Multiaddr)
    → ends_in_peer base ≡ false
    → IsAddrOver base addr
    → circuit_through peer addr ≡ base ++ p2p peer ∷ p2p_circuit ∷ []
circuit_lem peer base addr h (inl e) =
    ap (λ a. a ++ p2p peer ∷ p2p_circuit ∷ []) (ap pop_p2p e ∙ pop_p2p-base base h)
circuit_lem peer base addr h (inr (q, e)) =
    ap (λ a. a ++ p2p peer ∷ p2p_circuit ∷ []) (ap pop_p2p e ∙ pop_p2p-snoc base q)

-- A direct connection to a bootstrap in the mode Internet asks for one circuit through it, over the
-- address of the connection, less a peer's hop that it ends in, with the hop of the bootstrap and that
-- of a circuit behind it: where libp2p starts the listener, a further connection to it asks for none,
-- and when a connection to it closes the mark and the listener go, so that the next connection asks
-- again.
pub reserve-cycle :
    (net : Libp2p) (peer : PeerId) (base addr : Multiaddr) (listener connection : ℕ) (t : TaskState)
    → ends_in_peer base ≡ false
    → IsAddrOver base addr
    → IsUnreserved peer t
    → net.listener t.calls ≡ some listener
    → let u = reserve net peer false addr t in
      (u.calls ≡ t.calls ++ listened (base ++ p2p peer ∷ p2p_circuit ∷ []) ∷ [])
      × (reserve net peer false addr u ≡ u)
      × IsUnreserved peer (handle_swarm_event net (connection_closed peer connection) u)
      × (Map.get peer
            (handle_swarm_event net (connection_closed peer connection) u).circuit_listeners
          ≡ none)
unfolding handle_swarm_event reserve forget_connection
reserve-cycle net peer base addr listener connection t plain over h e =
    let started =
      start_circuit (some listener) peer (call (listened (circuit_through peer addr)) t) in
    let got = get-put peer peer listener t.circuit_listeners in
    rw (reserve_started net peer addr listener t h e) (
      ap (λ a. t.calls ++ listened a ∷ []) (circuit_lem peer base addr plain over),
      ground (arith, h),
      ground (
        arith,
        h,
        any-retain peer (peer ∷ t.relay_reserved),
        got,
        get-remove peer peer started.circuit_listeners,
      ),
      ground (arith, h, got, get-remove peer peer started.circuit_listeners),
    )
