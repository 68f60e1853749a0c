-- ===== src/Dialing/LanOnly.antt =====
-- What is dialled in the mode LanOnly.
use y7ke.Prelude.{
  ℕ, ◌≡◌, refl, Bool, true, false, List, [], ◌∷◌, ◌++◌, retain, All, In, In-of_All, In-retain,
  In-sort_by, if◌then◌else◌, inl, inr, Option, none, some, Bool-cases,
}
use y7ke.Bytes.{Bytes}
use y7ke.Ident.{Y7Id}
use y7ke.Status.{ok, lan_only}
use y7ke.Addr.{Multiaddr, multiaddr_is_lan, sort_addrs_for_dial, tier_for}
use y7ke.Storage.PeerStates
use y7ke.Storage.PeerStates.{PeerState}
use y7ke.Dialing.{
  Finder, Command, dial, find_peer, dial_address, parse_all, cons_parsed, cached_texts,
  cached_addrs, filter_addrs_for_mode, peer_has_lan_addr, try_swarm, try_addrs, Attempt, or_else,
  dial_with_discovery,
}

-- A command that LanOnly allows for a peer whose row is given.
pub IsLanDial : Finder → List PeerState → Y7Id → Command → Type 0
IsLanDial net rows peer dial = peer_has_lan_addr net (PeerStates.get rows peer) ≡ true
IsLanDial net rows peer find_peer = ⊥
IsLanDial net rows peer (dial_address m) =
    (multiaddr_is_lan m ≡ true) × In m (parse_all net (cached_texts net (PeerStates.get rows peer)))

module _ {A : Type 0} where
  All-snoc : (P : A → Type 0) (xs : List A) (x : A) → All P xs → P x → All P (xs ++ x ∷ [])
  All-snoc P [] x h hx = (hx, tt)
  All-snoc P (y ∷ ys) x h hx = (h.0, All-snoc P ys x h.1 hx)

In-cons_parsed :
    (o : Option Multiaddr) (m : Multiaddr) (ms ns : List Multiaddr)
    → (In m ms → In m ns)
    → In m (cons_parsed o ms)
    → In m (cons_parsed o ns)
In-cons_parsed none m ms ns f h = f h
In-cons_parsed (some a) m ms ns f (inl e) = inl e
In-cons_parsed (some a) m ms ns f (inr h) = inr (f h)

In-cons_parsed_rest :
    (o : Option Multiaddr) (m : Multiaddr) (ms : List Multiaddr) → In m ms → In m (cons_parsed o ms)
In-cons_parsed_rest none m ms h = h
In-cons_parsed_rest (some a) m ms h = inr h

In-parse_all_if :
    (net : Finder) (b : Bool) (m : Multiaddr) (s : Bytes) (kept ss : List Bytes)
    → (In m (parse_all net kept) → In m (parse_all net ss))
    → In m (parse_all net (if b then s ∷ kept else kept))
    → In m (parse_all net (s ∷ ss))
unfolding parse_all
In-parse_all_if net true m s kept ss f h =
    In-cons_parsed (net.parse_addr s) m (parse_all net kept) (parse_all net ss) f h
In-parse_all_if net false m s kept ss f h =
    In-cons_parsed_rest (net.parse_addr s) m (parse_all net ss) (f h)

In-parse_all :
    (net : Finder) (p : Bytes → Bool) (m : Multiaddr) (ss : List Bytes)
    → In m (parse_all net (retain p ss))
    → In m (parse_all net ss)
In-parse_all net p m [] h = h
In-parse_all net p m (s ∷ ss) h =
    In-parse_all_if net (p s) m s (retain p ss) ss (In-parse_all net p m ss) h

All-try_addrs :
    (P : Command → Type 0) (net : Finder) (ms : List Multiaddr) (log : List Command)
    → All P log
    → ((m : Multiaddr) → In m ms → P (dial_address m))
    → All P (try_addrs net ms log).1
unfolding try_addrs
All-try_addrs P net [] log h hs = h
All-try_addrs P net (m ∷ ms) log h hs =
    let here = All-snoc P log (dial_address m) h (hs m (inl refl)) in
    let rest = All-try_addrs P net ms (log ++ dial_address m ∷ []) here (λ a i. hs a (inr i)) in
    elim (Bool-cases (net.dialed_address log m)) [ inl e ↦ rw e here | inr e ↦ rw e rest ]

All-or_else :
    (P : Command → Type 0) (first : Attempt)
    → All P first.1
    → All P (or_else first (λ log. (false, log))).1
All-or_else P (true, log) h = h
All-or_else P (false, log) h = h

module _ (net : Finder) (rows : List PeerState) (peer : Y7Id) (now : ℕ) where
  abbrev row : Option PeerState
  row = PeerStates.get rows peer

  cached_addrs-IsLanDial :
      (m : Multiaddr)
      → In m (cached_addrs net row lan_only now)
      → IsLanDial net rows peer (dial_address m)
  unfolding cached_addrs filter_addrs_for_mode sort_addrs_for_dial IsLanDial
  cached_addrs-IsLanDial m h =
      let kept = In-retain multiaddr_is_lan m _ h in
      (kept.0, In-parse_all net _ m (cached_texts net row) ((In-sort_by tier_for m _).0 kept.1))

  cached-All :
      (first : Attempt)
      → All (IsLanDial net rows peer) first.1
      → All
          (IsLanDial net rows peer)
          (or_else first (λ log.
            or_else
              (try_addrs net (cached_addrs net row lan_only now) log)
              (λ log. (false, log)))).1
  cached-All (true, log) h = h
  cached-All (false, log) h =
      let tried =
        All-try_addrs (IsLanDial net rows peer) net (cached_addrs net row lan_only now) log h
          cached_addrs-IsLanDial in
      All-or_else (IsLanDial net rows peer) _ tried

  first-All :
      All
        (IsLanDial net rows peer)
        (if peer_has_lan_addr net row then try_swarm net [] else (false, [])).1
  unfolding try_swarm IsLanDial
  first-All = elim (Bool-cases (peer_has_lan_addr net row)) [
    | inl e ↦ rw e (e, tt)
    | inr e ↦ rw e tt
  ]

  -- In the mode LanOnly every command that the discovery of a peer gives the swarm is a dial of an
  -- address that is a LAN one and stands in the peer's cached list, or the dial of the peer by its
  -- id, and then that list has a LAN address. The peer is never looked up in the DHT.
  pub dial_with_discovery-IsLanDial :
      (bootstraps : List Multiaddr) (command : Command)
      → In command (dial_with_discovery net (ok lan_only) rows bootstraps peer now).1
      → IsLanDial net rows peer command
  unfolding dial_with_discovery
  dial_with_discovery-IsLanDial bootstraps command h =
      In-of_All (IsLanDial net rows peer) command _ (cached-All _ first-All) h
