-- ===== src/Swarm/Grouping.antt =====
-- The grouping of bootstraps by their PeerId.
use y7ke.Swarm.{addrs_of, group_bootstraps, group_one, peer_id_from_multiaddr, push_new}
use y7ke.Addr.{Multiaddr, Protocol, p2p}
use y7ke.Addr.Equality.{contains, same_addr, same_addr_iff}
use y7ke.App.{PeerId}
use y7ke.Map
use y7ke.Map.{Map, get-put}
use y7ke.Prelude.{
  Bool, true, ◌++◌, ◌&&◌, ◌||◌, not, find, sym, Bool-cases, List, Option, [], ap, arith, false,
  if◌then◌else◌, inl, inr, none, refl, retain, some, ◌==◌, ◌∙◌, ◌∷◌, ◌≡◌,
}

abbrev is_peer : PeerId → Option PeerId → Bool
is_peer peer none = false
is_peer peer (some p) = p == peer

-- An address that names a peer.
abbrev names : PeerId → Multiaddr → Bool
names peer addr = is_peer peer (peer_id_from_multiaddr addr)

-- Each address at its first place.
abbrev dedup_onto : List Multiaddr → List Multiaddr → List Multiaddr
dedup_onto acc [] = acc
dedup_onto acc (a ∷ addrs) = dedup_onto (push_new a acc) addrs

group_one-addrs :
    (peer : PeerId) (named : Option PeerId) (addr : Multiaddr) (m : Map (List Multiaddr))
    → addrs_of peer (group_one named addr m)
      ≡ (if is_peer peer named then push_new addr (addrs_of peer m) else addrs_of peer m)
group_one-addrs peer none addr m = refl
group_one-addrs peer (some p) addr m =
    ground (arith, get-put p peer (push_new addr (addrs_of p m)) m)

group_bootstraps-onto :
    (peer : PeerId) (addrs : List Multiaddr) (m : Map (List Multiaddr))
    → addrs_of peer (group_bootstraps addrs m)
      ≡ dedup_onto (addrs_of peer m) (retain (names peer) addrs)
unfolding group_bootstraps
group_bootstraps-onto peer [] m = refl
group_bootstraps-onto peer (a ∷ addrs) m =
    let next = group_one (peer_id_from_multiaddr a) a m in
    let one = group_one-addrs peer (peer_id_from_multiaddr a) a m in
    let rest = group_bootstraps-onto peer addrs next in
    elim (Bool-cases (names peer a)) [
      | inl e ↦ rw e (rest ∙ ap (λ acc. dedup_onto acc (retain (names peer) addrs)) (rw e at one))
      | inr e ↦ rw e (rest ∙ ap (λ acc. dedup_onto acc (retain (names peer) addrs)) (rw e at one))
    ]

abbrev is_p2p : Protocol → Bool
is_p2p (p2p peer) = true
is_p2p _ = false

abbrev is_hop_of : PeerId → Option Protocol → Bool
is_hop_of peer (some (p2p q)) = q == peer
is_hop_of peer _ = false

-- An address whose first hop of a peer is that of the peer.
abbrev pub leads_to : PeerId → Multiaddr → Bool
leads_to peer addr = is_hop_of peer (find is_p2p addr)

names-leads_to : (peer : PeerId) (addr : Multiaddr) → names peer addr ≡ leads_to peer addr
unfolding peer_id_from_multiaddr
names-leads_to peer [] = refl
names-leads_to peer (p2p q ∷ ps) = refl
names-leads_to peer (p ∷ ps) = names-leads_to peer ps

-- The list with each address at its first place alone.
abbrev pub nub : List Multiaddr → List Multiaddr
nub [] = []
nub (a ∷ addrs) = a ∷ retain (λ b. not (same_addr a b)) (nub addrs)

abbrev is_out : List Multiaddr → Multiaddr → Bool
is_out acc b = not (contains b acc)

same_addr_comm : (a b : Multiaddr) → same_addr a b ≡ same_addr b a
same_addr_comm a b = ground (arith, same_addr_iff a b, same_addr_iff b a)

contains-snoc :
    (b a : Multiaddr) (acc : List Multiaddr)
    → contains b (acc ++ a ∷ []) ≡ (contains b acc || same_addr a b)
unfolding contains
contains-snoc b a [] = ground (arith, same_addr_comm a b)
contains-snoc b a (c ∷ acc) = ground (arith, contains-snoc b a acc)

-- What is in the list already is left out anyhow.
out_known :
    (acc : List Multiaddr) (a b : Multiaddr)
    → contains a acc ≡ true
    → (is_out acc b && not (same_addr a b)) ≡ is_out acc b
out_known acc a b e = elim (Bool-cases (same_addr a b)) [
  | inl s ↦ rw s (rw (sym ((same_addr_iff a b).0 s)) (ground (arith, e)))
  | inr s ↦ ground (arith, s)
]

retain-retain :
    (acc : List Multiaddr) (p : Multiaddr → Bool) (q : Multiaddr → Bool) (addrs : List Multiaddr)
    → ((b : Multiaddr) → (is_out acc b && q b) ≡ p b)
    → retain (is_out acc) (retain q addrs) ≡ retain p addrs
retain-retain acc p q [] h = refl
retain-retain acc p q (b ∷ addrs) h = ground (arith, h b, retain-retain acc p q addrs h)

retain_all : (addrs : List Multiaddr) → retain (is_out []) addrs ≡ addrs
unfolding contains
retain_all [] = refl
retain_all (a ∷ addrs) = ap (λ l. a ∷ l) (retain_all addrs)

retain_ext :
    (p q : Multiaddr → Bool) (addrs : List Multiaddr)
    → ((b : Multiaddr) → p b ≡ q b)
    → retain p addrs ≡ retain q addrs
retain_ext p q [] h = refl
retain_ext p q (a ∷ addrs) h = ground (arith, h a, retain_ext p q addrs h)

append_snoc :
    (acc rest : List Multiaddr) (a : Multiaddr) → (acc ++ a ∷ []) ++ rest ≡ acc ++ a ∷ rest
append_snoc [] rest a = refl
append_snoc (b ∷ acc) rest a = ap (λ l. b ∷ l) (append_snoc acc rest a)

append_nil : (acc : List Multiaddr) → acc ++ [] ≡ acc
append_nil [] = refl
append_nil (b ∷ acc) = ap (λ l. b ∷ l) (append_nil acc)

dedup_onto-nub :
    (acc addrs : List Multiaddr) → dedup_onto acc addrs ≡ acc ++ retain (is_out acc) (nub addrs)
dedup_onto-nub acc [] = sym (append_nil acc)
dedup_onto-nub acc (a ∷ addrs) = elim (Bool-cases (contains a acc)) [
  | inl e ↦ rw e (
      dedup_onto-nub acc addrs
      ∙ ap (λ l. acc ++ l)
          (sym (
            retain-retain acc (is_out acc) (λ b. not (same_addr a b)) (nub addrs)
              (λ b. out_known acc a b e))))
  | inr e ↦ rw e (
      dedup_onto-nub (acc ++ a ∷ []) addrs
      ∙ append_snoc acc (retain (is_out (acc ++ a ∷ [])) (nub addrs)) a
      ∙ ap (λ l. acc ++ a ∷ l)
          (sym (
            retain-retain acc (is_out (acc ++ a ∷ [])) (λ b. not (same_addr a b)) (nub addrs)
              (λ b. ground (arith, contains-snoc b a acc)))))
]

-- The addresses that the swarm dials a bootstrap at are those of the list whose first `/p2p` names it,
-- in their order and each at its first place: one pass over the list with a map gives for each peer
-- what a filter and a removal of duplicates give.
pub group_bootstraps-eq-dedup :
    (peer : PeerId) (addrs : List Multiaddr)
    → addrs_of peer (group_bootstraps addrs []) ≡ nub (retain (leads_to peer) addrs)
unfolding Map.get
group_bootstraps-eq-dedup peer addrs =
    group_bootstraps-onto peer addrs []
    ∙ dedup_onto-nub [] (retain (names peer) addrs)
    ∙ retain_all (nub (retain (names peer) addrs))
    ∙ ap nub (retain_ext (names peer) (leads_to peer) addrs (names-leads_to peer))
