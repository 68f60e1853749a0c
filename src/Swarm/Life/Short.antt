-- ===== src/Swarm/Life/Short.antt =====
-- The lists of the address book: short, and with no address twice.
use y7ke.Swarm.{
  addrs_of, max_addrs_per_peer, push_capped, remember_address, remember_all, without_relayed,
}
use y7ke.Swarm.Commands.{prune_relayed}
use y7ke.Addr.{Multiaddr}
use y7ke.Addr.Equality.{IsDistinct, IsDistinct-snoc, contains, contains_iff}
use y7ke.App.{PeerId}
use y7ke.Map
use y7ke.Map.{All-put, Map}
use y7ke.Prelude.{
  All, Bool, Bool-cases, In, In-retain, List, [], arith, drop, false, inl, inr, length,
  length-append, length-retain-le, ltb, refl, retain, ◌++◌, ◌-◌, ◌==◌, ◌∷◌, ◌≡◌, ◌≤◌,
}

pub IsDistinct-retain :
    (p : Multiaddr → Bool) (addrs : List Multiaddr) → IsDistinct addrs → IsDistinct (retain p addrs)
IsDistinct-retain p [] d = d
IsDistinct-retain p (a ∷ addrs) d =
    let rest = IsDistinct-retain p addrs d.1 in
    elim (Bool-cases (p a)) [
      | inl e ↦ rw e (λ m. d.0 (In-retain p a addrs m).1, rest)
      | inr e ↦ rw e rest
    ]

pub length-drop_one : (addrs : List Multiaddr) → length (drop 1 addrs) ≡ length addrs - 1
length-drop_one [] = refl
length-drop_one (a ∷ addrs) = omega arith

pub IsDistinct-drop : (addrs : List Multiaddr) → IsDistinct addrs → IsDistinct (drop 1 addrs)
IsDistinct-drop [] d = d
IsDistinct-drop (a ∷ addrs) d = d.1

abbrev pub IsShort : List Multiaddr → Type 0
IsShort addrs = (length addrs ≤ max_addrs_per_peer) × IsDistinct addrs

abbrev pub IsBook : Map (List Multiaddr) → Type 0
IsBook book = All IsShort (Map.values book)

pub push_capped-IsShort :
    (addr : Multiaddr) (addrs : List Multiaddr)
    → IsShort addrs
    → contains addr addrs ≡ false
    → IsShort (push_capped addr addrs)
unfolding push_capped
push_capped-IsShort addr addrs s n =
    let new : ¬ (In addr addrs) = λ m. ground (arith, (contains_iff addr addrs).1 m, n) in
    let grown = IsDistinct-snoc addrs addr s.1 new in
    let dropped = IsDistinct-drop (addrs ++ addr ∷ []) grown in
    let one_more = length-append addrs (addr ∷ []) in
    let one_less = length-drop_one (addrs ++ addr ∷ []) in
    elim (Bool-cases (ltb max_addrs_per_peer (length (addrs ++ addr ∷ [])))) [
      | inl e ↦ rw e (omega (arith, one_more, one_less, s.0), dropped)
      | inr e ↦ rw e (ground (arith, e), grown)
    ]

pub addrs_of-IsShort :
    (peer : PeerId) (book : Map (List Multiaddr)) → IsBook book → IsShort (addrs_of peer book)
unfolding Map.get
addrs_of-IsShort peer [] h = (omega arith, tt)
addrs_of-IsShort peer ((j, addrs) ∷ book) h = elim (Bool-cases (j == peer)) [
  | inl e ↦ rw e h.0
  | inr e ↦ rw e (addrs_of-IsShort peer book h.1)
]

pub remember_address-IsBook :
    (peer : PeerId) (addr : Multiaddr) (book : Map (List Multiaddr))
    → IsBook book
    → IsBook (remember_address peer addr book)
unfolding remember_address
remember_address-IsBook peer addr book h =
    let addrs = addrs_of peer book in
    let short = addrs_of-IsShort peer book h in
    elim (Bool-cases (contains addr addrs)) [
      | inl e ↦ rw e h
      | inr e ↦ rw e (
          All-put IsShort peer (push_capped addr addrs) book h
            (push_capped-IsShort addr addrs short e))
    ]

pub remember_all-IsBook :
    (peer : PeerId) (addrs : List Multiaddr) (book : Map (List Multiaddr))
    → IsBook book
    → IsBook (remember_all peer addrs book)
unfolding remember_all
remember_all-IsBook peer [] book h = h
remember_all-IsBook peer (a ∷ addrs) book h =
    remember_all-IsBook peer addrs (remember_address peer a book)
      (remember_address-IsBook peer a book h)

pub retain-IsShort :
    (p : Multiaddr → Bool) (addrs : List Multiaddr) → IsShort addrs → IsShort (retain p addrs)
retain-IsShort p addrs s =
    (omega (arith, length-retain-le p addrs, s.0), IsDistinct-retain p addrs s.1)

-- The rest of a pruned book, and the entry that is kept where it is not empty.
pub prune_entry-IsBook :
    (peer : PeerId) (kept : List Multiaddr) (rest : Map (List Multiaddr))
    → IsShort kept
    → IsBook rest
    → IsBook (elim kept [ [] ↦ rest | a ∷ more ↦ (peer, a ∷ more) ∷ rest ])
prune_entry-IsBook peer [] rest s h = h
prune_entry-IsBook peer (a ∷ more) rest s h = (s, h)

pub prune_relayed-IsBook : (book : Map (List Multiaddr)) → IsBook book → IsBook (prune_relayed book)
unfolding prune_relayed
prune_relayed-IsBook [] h = h
prune_relayed-IsBook ((peer, addrs) ∷ book) h =
    prune_entry-IsBook peer (without_relayed addrs) (prune_relayed book)
      (retain-IsShort _ addrs h.0) (prune_relayed-IsBook book h.1)
