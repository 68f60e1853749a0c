-- ===== src/Dialing.antt =====
-- `dial_with_discovery`, `peer_has_lan_addr`, `filter_addrs_for_mode` and `circuit_cache_is_stale` of
-- crates/y7ke-app/src/app/contacts.rs. What the swarm answers is an argument that may depend on the
-- commands it had before; the log is the commands in their order.
pub mod LanOnly
pub mod Exhausted
mod Tests
use y7ke.Prelude.{
  ℕ, ◌-◌, ◌*◌, Bool, true, false, not, ◌&&◌, ◌||◌, Option, none, some, List, [], ◌∷◌, ◌++◌, map,
  any, retain, ltb, ◌==◌, if◌then◌else◌,
}
use y7ke.Text.{codes, has_part}
use y7ke.Bytes.{Bytes}
use y7ke.Ident.{Y7Id}
use y7ke.App.{PeerId}
use y7ke.Status.{Result, ok, err, DialMode, lan_only, internet_mode, is_lan_only}
use y7ke.Addr.{Multiaddr, p2p, p2p_circuit, multiaddr_is_lan, sort_addrs_for_dial}
use y7ke.Storage.PeerStates
use y7ke.Storage.PeerStates.{PeerState}

pub data Command : Type 0 where
  dial find_peer : Command
  dial_address : Multiaddr → Command

-- The swarm's handle, and the conversions of other crates: serde_json on the cached list, the parser
-- of addresses, and the PeerId of a Y7Id.
pub record Finder : Type 0 where
  pub dialed : List Command → Result Bool
  pub dialed_address : List Command → Multiaddr → Bool
  pub found : List Command → Result (List Multiaddr)
  pub addrs_from_json : Bytes → Option (List Bytes)
  pub parse_addr : Bytes → Option Multiaddr
  pub peer_id_from_y7 : Y7Id → Option PeerId

-- `settings.get()` and its default.
abbrev pub mode_of : Result DialMode → DialMode
mode_of (ok mode) = mode
mode_of (err e) = internet_mode

unfoldable pub filter_addrs_for_mode : List Multiaddr → DialMode → List Multiaddr
filter_addrs_for_mode addrs lan_only = retain multiaddr_is_lan addrs
filter_addrs_for_mode addrs internet_mode = addrs

abbrev pub stale_circuit_age_ms : ℕ
stale_circuit_age_ms = 24 * 60 * 60 * 1000

-- A timestamp in the future gives a difference that is not above the age, as 0 is not.
unfoldable pub circuit_cache_is_stale : Option ℕ → ℕ → Bool
circuit_cache_is_stale (some ts) now = ltb stale_circuit_age_ms (now - ts)
circuit_cache_is_stale none now = true

abbrev pub circuit_text : Bytes
circuit_text = codes "/p2p-circuit"

abbrev cons_parsed : Option Multiaddr → List Multiaddr → List Multiaddr
cons_parsed none ms = ms
cons_parsed (some m) ms = m ∷ ms

-- `filter_map(|s| s.parse().ok())`
unfoldable pub parse_all : Finder → List Bytes → List Multiaddr
parse_all net [] = []
parse_all net (s ∷ ss) = cons_parsed (net.parse_addr s) (parse_all net ss)

abbrev texts_of : Finder → Option Bytes → List Bytes
texts_of net none = []
texts_of net (some json) = elim (net.addrs_from_json json) [ none ↦ [] | some texts ↦ texts ]

-- The texts of a row's cached list, none where there is no row, no list or no JSON.
abbrev pub cached_texts : Finder → Option PeerState → List Bytes
cached_texts net none = []
cached_texts net (some row) = texts_of net row.last_addrs_json

unfoldable pub peer_has_lan_addr : Finder → Option PeerState → Bool
peer_has_lan_addr net row = any multiaddr_is_lan (parse_all net (cached_texts net row))

abbrev seen_at : Option PeerState → Option ℕ
seen_at none = none
seen_at (some row) = row.last_seen_at

-- The addresses that step 2 tries.
unfoldable pub cached_addrs : Finder → Option PeerState → DialMode → ℕ → List Multiaddr
cached_addrs net row mode now =
    let stale = circuit_cache_is_stale (seen_at row) now in
    let kept = retain (λ s. not (stale && has_part circuit_text s)) (cached_texts net row) in
    filter_addrs_for_mode (sort_addrs_for_dial (parse_all net kept)) mode

-- Whether a dial was issued, and the log.
abbrev pub Attempt : Type 0
Attempt = Bool × List Command

abbrev pub or_else : Attempt → (List Command → Attempt) → Attempt
or_else (true, log) next = (true, log)
or_else (false, log) next = next log

abbrev pub is_issued : Result Bool → Bool
is_issued (ok issued) = issued
is_issued (err e) = false

unfoldable pub try_swarm : Finder → List Command → Attempt
try_swarm net log = (is_issued (net.dialed log), log ++ dial ∷ [])

-- Each address in turn, up to the first that is issued.
unfoldable pub try_addrs : Finder → List Multiaddr → List Command → Attempt
try_addrs net [] log = (false, log)
try_addrs net (m ∷ ms) log =
    let rest = try_addrs net ms (log ++ dial_address m ∷ []) in
    if net.dialed_address log m then (true, log ++ dial_address m ∷ []) else rest

abbrev pub found_addrs : Result (List Multiaddr) → List Multiaddr
found_addrs (ok addrs) = addrs
found_addrs (err e) = []

unfoldable pub try_kad : Finder → DialMode → List Command → Attempt
unfolding try_addrs
try_kad net mode log =
    let addrs = found_addrs (net.found log) in
    try_addrs net (filter_addrs_for_mode (sort_addrs_for_dial addrs) mode) (log ++ find_peer ∷ [])

abbrev pub circuit_of : PeerId → Multiaddr → Multiaddr
circuit_of target relay = relay ++ p2p_circuit ∷ p2p target ∷ []

-- Every bootstrap's circuit is dialled, whatever the earlier ones gave.
unfoldable pub try_relays : Finder → PeerId → Bool → List Multiaddr → List Command → Attempt
try_relays net target issued [] log = (issued, log)
try_relays net target issued (relay ∷ relays) log =
    let circuit = circuit_of target relay in
    try_relays net target (net.dialed_address log circuit || issued) relays
      (log ++ dial_address circuit ∷ [])

-- Step 5: nothing is tried for an id that is no PeerId.
abbrev pub relays_to : Option PeerId → Finder → List Multiaddr → List Command → Attempt
relays_to none net bootstraps log = (false, log)
relays_to (some target) net bootstraps log = try_relays net target false bootstraps log

-- Steps 3, 4 and 5.
unfoldable pub beyond_lan : Finder → DialMode → List Multiaddr → Y7Id → List Command → Attempt
unfolding try_swarm
beyond_lan net mode bootstraps peer log =
    or_else (try_kad net mode log)
      (λ log. or_else (try_swarm net log) (relays_to (net.peer_id_from_y7 peer) net bootstraps))

unfoldable pub dial_with_discovery :
    Finder → Result DialMode → List PeerState → List Multiaddr → Y7Id → ℕ → Attempt
unfolding try_swarm
dial_with_discovery net settings rows bootstraps peer now =
    let mode = mode_of settings in
    let row = PeerStates.get rows peer in
    let swarm_dial_ok = not (is_lan_only mode) || peer_has_lan_addr net row in
    or_else (if swarm_dial_ok then try_swarm net [] else (false, [])) (λ log.
      or_else (try_addrs net (cached_addrs net row mode now) log)
        (λ log. if is_lan_only mode then (false, log) else beyond_lan net mode bootstraps peer log))
