-- ===== src/Commands/Bootstraps.antt =====
-- `list_bootstraps`, `ping_all_bootstraps` and `select_best_bootstrap` of
-- crates/y7ke-app/src/app/settings.rs. How long a TCP connection took is a parameter, none where it
-- failed or timed out; the tasks of the pings end in the order of the list.
pub mod Selected
use y7ke.Status.{Result, err, ok}
use y7ke.Storage.Settings
use y7ke.Storage.Settings.{Settings, SettingsCodec}
use y7ke.Config.{default_relay_bootstrap, expand_bootstrap}
use y7ke.Text.{same_text}
use y7ke.Bytes.{Bytes}
use y7ke.Addr.{
  Host, Multiaddr, Protocol, dns, dns4, dns6, ip4, ip6, name, tcp_port, v4_host, v6_host,
}
use y7ke.Prelude.{
  Bool, List, Option, [], false, if◌then◌else◌, leb, none, not, retain, some, true, ℕ, ◌∷◌,
}

pub record BootstrapPingState : Type 0 where
  pub last_ping_ms : Option ℕ
  pub last_ping_failed : Bool

pub record BootstrapEntry : Type 0 where
  pub multiaddr : List ℕ
  pub is_default : Bool
  pub last_ping_ms : Option ℕ
  pub last_ping_failed : Bool

-- The cache of pings, by the text of the address.
abbrev pub Pings : Type 0
Pings = List (List ℕ × BootstrapPingState)

abbrev never_pinged : BootstrapPingState
never_pinged = record { last_ping_ms = none; last_ping_failed = false }

unfoldable pub ping_of : List ℕ → Pings → BootstrapPingState
ping_of addr [] = never_pinged
ping_of addr ((a, state) ∷ pings) = if same_text a addr then state else ping_of addr pings

unfoldable pub put_ping : List ℕ → BootstrapPingState → Pings → Pings
put_ping addr state [] = (addr, state) ∷ []
put_ping addr state ((a, old) ∷ pings) =
    if same_text a addr then (addr, state) ∷ pings else (a, old) ∷ put_ping addr state pings

unfoldable pub make_entry : List ℕ → Bool → Pings → BootstrapEntry
unfolding ping_of
make_entry addr is_default pings =
    let state = ping_of addr pings in
    record {
      multiaddr = addr;
      is_default = is_default;
      last_ping_ms = state.last_ping_ms;
      last_ping_failed = state.last_ping_failed;
    }

-- The entries of the user: the built-in one is not repeated.
abbrev pub extras : Settings → List (List ℕ)
extras s = retain (λ a. not (same_text a default_relay_bootstrap)) s.extra_bootstraps

unfoldable pub entries_of : List (List ℕ) → Pings → List BootstrapEntry
unfolding make_entry
entries_of [] pings = []
entries_of (a ∷ addrs) pings = make_entry a false pings ∷ entries_of addrs pings

abbrev all_entries : Pings → Settings → List BootstrapEntry
all_entries pings s = make_entry default_relay_bootstrap true pings ∷ entries_of (extras s) pings

abbrev pub map_ok : {A B : Type 0} → (A → B) → Result A → Result B
map_ok f (ok a) = ok (f a)
map_ok f (err e) = err e

unfoldable pub list_bootstraps : SettingsCodec → Option Bytes → Pings → Result (List BootstrapEntry)
unfolding entries_of
list_bootstraps codec row pings = map_ok (all_entries pings) (Settings.get codec row)

abbrev port_of : Protocol → Option ℕ → Option ℕ
port_of (tcp_port p) old = some p
port_of _ old = old

abbrev host_of : Protocol → Option Host → Option Host
host_of (ip4 ip) old = some (v4_host ip)
host_of (ip6 ip) old = some (v6_host ip)
host_of (dns n) old = some (name n)
host_of (dns4 n) old = some (name n)
host_of (dns6 n) old = some (name n)
host_of _ old = old

abbrev both : Option Host → Option ℕ → Option (Host × ℕ)
both none port = none
both (some h) none = none
both (some h) (some p) = some (h, p)

host_port_from : Option Host → Option ℕ → Multiaddr → Option (Host × ℕ)
host_port_from host port [] = both host port
host_port_from host port (p ∷ ps) = host_port_from (host_of p host) (port_of p port) ps

-- The last host and the last TCP port.
unfoldable pub host_port_from_multiaddr : Multiaddr → Option (Host × ℕ)
unfolding host_port_from
host_port_from_multiaddr addr = host_port_from none none addr

-- `find_map(|s| s.parse().ok())`
unfoldable pub first_parsed : (List ℕ → Option Multiaddr) → List (List ℕ) → Option Multiaddr
first_parsed parse [] = none
first_parsed parse (s ∷ ss) = elim (parse s) [ none ↦ first_parsed parse ss | some m ↦ some m ]

abbrev failed_ping : BootstrapPingState
failed_ping = record { last_ping_ms = none; last_ping_failed = true }

abbrev ping_result : Option ℕ → BootstrapPingState
ping_result none = failed_ping
ping_result (some rtt) = record { last_ping_ms = some rtt; last_ping_failed = false }

abbrev ping_target : (Host → ℕ → Option ℕ) → Option (Host × ℕ) → BootstrapPingState
ping_target connect none = failed_ping
ping_target connect (some (host, port)) = ping_result (connect host port)

abbrev and_host_port : Option Multiaddr → Option (Host × ℕ)
and_host_port none = none
and_host_port (some m) = host_port_from_multiaddr m

unfoldable pub ping_one :
    (List ℕ → Option Multiaddr) → (Host → ℕ → Option ℕ) → List ℕ → BootstrapPingState
unfolding first_parsed
ping_one parse connect addr =
    ping_target connect (and_host_port (first_parsed parse (expand_bootstrap addr)))

unfoldable pub ping_each : (List ℕ → BootstrapPingState) → List (List ℕ) → Pings → Pings
unfolding put_ping
ping_each ping [] pings = pings
ping_each ping (a ∷ addrs) pings = ping_each ping addrs (put_ping a (ping a) pings)

abbrev pub ping_entries :
    (List ℕ → BootstrapPingState) → Settings → Pings → List BootstrapEntry × Pings
ping_entries ping s pings =
    let pinged = ping_each ping (default_relay_bootstrap ∷ extras s) pings in
    (all_entries pinged s, pinged)

abbrev pub keep_or :
    Pings → Result (List BootstrapEntry × Pings) → Result (List BootstrapEntry) × Pings
keep_or pings (ok (entries, pinged)) = (ok entries, pinged)
keep_or pings (err e) = (err e, pings)

unfoldable pub ping_all_bootstraps :
    SettingsCodec
    → (List ℕ → BootstrapPingState)
    → Option Bytes
    → Pings
    → Result (List BootstrapEntry) × Pings
unfolding ping_each entries_of
ping_all_bootstraps codec ping row pings =
    keep_or pings (map_ok (λ s. ping_entries ping s pings) (Settings.get codec row))

-- The loop's `best`: an entry and its time.
abbrev pub better :
    BootstrapEntry → Option ℕ → Option (BootstrapEntry × ℕ) → Option (BootstrapEntry × ℕ)
better e none best = best
better e (some rtt) none = some (e, rtt)
better e (some rtt) (some (b, cur)) = if leb cur rtt then some (b, cur) else some (e, rtt)

unfoldable pub best_from :
    Option (BootstrapEntry × ℕ) → List BootstrapEntry → Option (BootstrapEntry × ℕ)
best_from best [] = best
best_from best (e ∷ entries) =
    best_from (if e.last_ping_failed then best else better e e.last_ping_ms best) entries

abbrev pub addr_or_default : Option (BootstrapEntry × ℕ) → List ℕ
addr_or_default none = default_relay_bootstrap
addr_or_default (some (e, rtt)) = e.multiaddr

abbrev pub best_addr : Result (List BootstrapEntry) → List ℕ
best_addr (err e) = default_relay_bootstrap
best_addr (ok entries) = addr_or_default (best_from none entries)

unfoldable pub select_best_bootstrap :
    SettingsCodec → (List ℕ → BootstrapPingState) → Option Bytes → Pings → List ℕ
unfolding best_from
select_best_bootstrap codec ping row pings = best_addr (ping_all_bootstraps codec ping row pings).0
