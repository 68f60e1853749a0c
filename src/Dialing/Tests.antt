-- ===== src/Dialing/Tests.antt =====
-- Concrete discoveries: a swarm that issues no dial, and a peer with a loopback address and a public
-- one in its cached list. A text is the first byte of an IPv4 address.
use y7ke.Dialing.Exhausted.{circuits}
use y7ke.Prelude.{
  ◌*◌, ◌^◌, ◌≡◌, refl, true, false, Option, none, some, [], ◌∷◌, In, inl, inr, map, sym, subst,
}
use y7ke.Prelude.Sort
use y7ke.Text.{has_part}
use y7ke.Bytes.{Bytes}
use y7ke.Status.{ok, lan_only, internet_mode}
use y7ke.Addr.{Multiaddr, ip4, tcp_port, multiaddr_is_lan, v4_is_lan, sort_addrs_for_dial, tier_for}
use y7ke.Storage.PeerStates
use y7ke.Storage.PeerStates.{PeerState}
use y7ke.Dialing.{
  Finder, dial, dial_address, find_peer, circuit_of, peer_has_lan_addr, parse_all, try_addrs,
  cached_addrs, filter_addrs_for_mode, beyond_lan, try_kad, try_relays, circuit_cache_is_stale,
  circuit_text, dial_with_discovery,
}
use y7ke.Dialing.LanOnly.{IsLanDial, dial_with_discovery-IsLanDial}
use y7ke.Dialing.Exhausted.{dial_with_discovery-exhausted}

abbrev parse_text : Bytes → Option Multiaddr
parse_text (n ∷ ns) = some (ip4 (n * 2 ^ 24) ∷ [])
parse_text [] = none

abbrev dead_end : Finder
dead_end = record {
  dialed = λ log. ok false;
  dialed_address = λ log addr. false;
  found = λ log. ok [];
  addrs_from_json = λ json. some (map (λ b. b ∷ []) json);
  parse_addr = parse_text;
  peer_id_from_y7 = λ peer. some peer;
}

abbrev row2 : PeerState
row2 = record {
  peer_y7_id = 2;
  last_addrs_json = some (8 ∷ 127 ∷ []);
  last_seen_at = some 1000;
  highest_seen_message_id = none;
  highest_sent_message_id = none;
}

abbrev loopback : Multiaddr
loopback = ip4 (127 * 2 ^ 24) ∷ []

abbrev relay1 : Multiaddr
relay1 = ip4 (8 * 2 ^ 24) ∷ tcp_port 4001 ∷ []

dials_lan :
    dial_with_discovery dead_end (ok lan_only) (row2 ∷ []) (relay1 ∷ []) 2 2000
    ≡ (false, dial ∷ dial_address loopback ∷ [])
unfolding dial_with_discovery peer_has_lan_addr parse_all PeerStates.get multiaddr_is_lan v4_is_lan
    try_addrs cached_addrs filter_addrs_for_mode sort_addrs_for_dial Sort.sort_by
    circuit_cache_is_stale tier_for
dials_lan = refl

dials_all : dial_with_discovery dead_end (ok internet_mode) (row2 ∷ []) (relay1 ∷ []) 2 2000 ≡ (
  false,
  dial
      ∷ dial_address (ip4 (8 * 2 ^ 24) ∷ [])
      ∷ dial_address loopback
      ∷ find_peer
      ∷ dial
      ∷ dial_address (circuit_of 2 relay1)
      ∷ [],
)
unfolding dial_with_discovery try_addrs cached_addrs filter_addrs_for_mode sort_addrs_for_dial
    Sort.sort_by parse_all PeerStates.get circuit_cache_is_stale tier_for beyond_lan try_kad
    try_relays
dials_all = refl

stale_after_a_day : circuit_cache_is_stale (some 1000) 86401001 ≡ true
unfolding circuit_cache_is_stale
stale_after_a_day = refl

finds_circuit : has_part circuit_text (47 ∷ 47 ∷ 112 ∷ []) ≡ false
unfolding has_part
finds_circuit = refl

dial_with_discovery-IsLanDial_example : IsLanDial dead_end (row2 ∷ []) 2 (dial_address loopback)
dial_with_discovery-IsLanDial_example =
    dial_with_discovery-IsLanDial dead_end (row2 ∷ []) 2 2000 (relay1 ∷ []) (dial_address loopback)
      (subst (λ a. In (dial_address loopback) a.1) (sym dials_lan) (inr (inl refl)))

-- A swarm that takes each command and knows no address.
abbrev lost : Finder
lost = record dead_end { dialed_address = λ log addr. true }

lost-cached : cached_addrs lost (PeerStates.get [] 2) internet_mode 2000 ≡ []
unfolding cached_addrs filter_addrs_for_mode sort_addrs_for_dial Sort.sort_by parse_all
    PeerStates.get circuit_cache_is_stale
lost-cached = refl

dial_with_discovery-exhausted_example :
    dial_with_discovery lost (ok internet_mode) [] (relay1 ∷ []) 2 2000
    ≡ (true, dial ∷ find_peer ∷ dial ∷ circuits 2 (relay1 ∷ []))
dial_with_discovery-exhausted_example =
    dial_with_discovery-exhausted lost [] (relay1 ∷ []) 2 2000 (λ log addr. refl) (λ log e. cc)
      lost-cached (λ log. refl)
