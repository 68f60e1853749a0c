-- ===== src/Addr/Laws.antt =====
-- The order of dials.
use y7ke.Prelude.{
  ℕ, ◌≡◌, refl, ◌↔◌, Bool, true, false, ◌||◌, List, [], ◌∷◌, any, if◌then◌else◌, arith, In,
  IsSorted, In-sort_by, sort_by-IsSorted, length, length-sort_by,
}
use y7ke.Addr.{Multiaddr, is_circuit_hop, is_quic_hop, tier_from, tier_for, sort_addrs_for_dial}

tier_from_lem :
    (is_circuit is_quic : Bool) (addr : Multiaddr)
    → tier_from is_circuit is_quic addr ≡ (
        if is_circuit || any is_circuit_hop addr
        then 3
        else if is_quic || any is_quic_hop addr
        then 1
        else 2)
unfolding tier_from
tier_from_lem true true [] = refl
tier_from_lem true false [] = refl
tier_from_lem false true [] = refl
tier_from_lem false false [] = refl
tier_from_lem a b (p ∷ ps) =
    ground (arith, tier_from_lem a b ps, tier_from_lem true b ps, tier_from_lem a true ps)

abbrev pub dial_tier : Multiaddr → ℕ
dial_tier addr = if any is_circuit_hop addr then 3 else if any is_quic_hop addr then 1 else 2

-- The addresses to dial are those given and as many, in the order of their tiers: the direct QUIC
-- addresses, the other direct ones, then those through a relay.
sort_addrs_for_dial-ordered :
    (addrs : List Multiaddr) (addr : Multiaddr)
    → IsSorted tier_for (sort_addrs_for_dial addrs)
      × (In addr (sort_addrs_for_dial addrs) ↔ In addr addrs)
      × (length (sort_addrs_for_dial addrs) ≡ length addrs)
      × (tier_for addr ≡ dial_tier addr)
unfolding sort_addrs_for_dial tier_for
sort_addrs_for_dial-ordered addrs addr = (
  sort_by-IsSorted tier_for addrs,
  In-sort_by tier_for addr addrs,
  length-sort_by tier_for addrs,
  tier_from_lem false false addr,
)
