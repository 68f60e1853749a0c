-- ===== src/Dialing/Exhausted.antt =====
-- What a discovery does in the mode Internet for a peer that is known by no address.
use y7ke.Prelude.{
  some, none, ℕ, ◌≡◌, refl, ap, ◌∙◌, Bool, true, false, not, ◌||◌, List, Option, [], ◌∷◌, ◌++◌, map,
  length, ◌==◌, arith,
}
use y7ke.Prelude.Sort
use y7ke.Ident.{Y7Id}
use y7ke.Status.{Result, ok, err, internet_mode}
use y7ke.Addr.{Multiaddr, p2p, p2p_circuit, sort_addrs_for_dial}
use y7ke.Storage.PeerStates
use y7ke.Storage.PeerStates.{PeerState}
use y7ke.App.{PeerId}
use y7ke.Dialing.{
  Finder, Command, dial, dial_address, find_peer, found_addrs, is_issued, relays_to, try_relays,
  beyond_lan, try_swarm, try_kad, try_addrs, cached_addrs, filter_addrs_for_mode,
  dial_with_discovery,
}

not_issued : (r : Result Bool) → ¬ (r ≡ ok true) → is_issued r ≡ false
not_issued (ok true) n = absurd (n refl)
not_issued (ok false) n = refl
not_issued (err e) n = refl

-- The commands that dial a peer through each of the relays.
abbrev pub circuits : PeerId → List Multiaddr → List Command
circuits target relays = map (λ relay. dial_address (relay ++ p2p_circuit ∷ p2p target ∷ [])) relays

append_snoc :
    (log : List Command) (c : Command) (cs : List Command) → (log ++ c ∷ []) ++ cs ≡ log ++ c ∷ cs
append_snoc [] c cs = refl
append_snoc (d ∷ log) c cs = ap (λ l. d ∷ l) (append_snoc log c cs)

append_nil : (log : List Command) → log ++ [] ≡ log
append_nil [] = refl
append_nil (d ∷ log) = ap (λ l. d ∷ l) (append_nil log)

try_relays-all :
    (net : Finder) (target : PeerId) (issued : Bool) (relays : List Multiaddr) (log : List Command)
    → ((log : List Command) (addr : Multiaddr) → net.dialed_address log addr ≡ true)
    → try_relays net target issued relays log
      ≡ (issued || not (length relays == 0), log ++ circuits target relays)
unfolding try_relays
try_relays-all net target issued [] log taken = ground (arith, append_nil log)
try_relays-all net target issued (relay ∷ relays) log taken =
    let c = dial_address (relay ++ p2p_circuit ∷ p2p target ∷ []) in
    rw (taken log (relay ++ p2p_circuit ∷ p2p target ∷ [])) (
      try_relays-all net target true relays (log ++ c ∷ []) taken
      ∙ ground (arith, append_snoc log c (circuits target relays)))

try_kad-none :
    (net : Finder) (log : List Command)
    → found_addrs (net.found log) ≡ []
    → try_kad net internet_mode log ≡ (false, log ++ find_peer ∷ [])
unfolding try_kad try_addrs filter_addrs_for_mode sort_addrs_for_dial Sort.sort_by
try_kad-none net log e = rw e refl

last_step :
    (net : Finder) (known : Option PeerId) (bootstraps : List Multiaddr)
    → ((log : List Command) (addr : Multiaddr) → net.dialed_address log addr ≡ true)
    → relays_to known net bootstraps (dial ∷ find_peer ∷ dial ∷ []) ≡ elim known [
      | none ↦ (false, dial ∷ find_peer ∷ dial ∷ [])
      | some target ↦
          (not (length bootstraps == 0), dial ∷ find_peer ∷ dial ∷ circuits target bootstraps)
    ]
last_step net none bootstraps taken = refl
last_step net (some target) bootstraps taken =
    try_relays-all net target false bootstraps (dial ∷ find_peer ∷ dial ∷ []) taken

-- In the mode Internet, where the task takes each command, the swarm knows no address of the peer at
-- either of the two dials, the cached list has none to try and the DHT finds none, a discovery dials the
-- peer, asks the DHT, dials the peer again, and then dials the circuit to it through every bootstrap,
-- in the order of the list and whatever the earlier ones gave; it counts as issued where there is a
-- bootstrap. For an id that is no PeerId, it ends with the second dial and is not issued.
pub dial_with_discovery-exhausted :
    (net : Finder) (rows : List PeerState) (bootstraps : List Multiaddr) (peer : Y7Id) (now : ℕ)
    → ((log : List Command) (addr : Multiaddr) → net.dialed_address log addr ≡ true)
    → ((log : List Command) → ¬ (net.dialed log ≡ ok true))
    → cached_addrs net (PeerStates.get rows peer) internet_mode now ≡ []
    → ((log : List Command) → found_addrs (net.found log) ≡ [])
    → dial_with_discovery net (ok internet_mode) rows bootstraps peer now
      ≡ elim (net.peer_id_from_y7 peer) [
        | none ↦ (false, dial ∷ find_peer ∷ dial ∷ [])
        | some target ↦
            (not (length bootstraps == 0), dial ∷ find_peer ∷ dial ∷ circuits target bootstraps)
      ]
unfolding dial_with_discovery beyond_lan try_swarm try_addrs
dial_with_discovery-exhausted net rows bootstraps peer now taken unknown uncached unfound =
    rw (not_issued (net.dialed []) (unknown [])) (
      rw uncached (
        rw (try_kad-none net (dial ∷ []) (unfound (dial ∷ []))) (
          rw (not_issued (net.dialed (dial ∷ find_peer ∷ [])) (unknown (dial ∷ find_peer ∷ [])))
            (last_step net (net.peer_id_from_y7 peer) bootstraps taken))))
