-- ===== src/Addr.antt =====
-- The address functions of crates/y7ke-app/src/app.rs, crates/y7ke-net/src/swarm.rs and
-- crates/y7ke-net/src/dial_priority.rs. A multiaddress is the list of its protocols, those that the
-- source tells apart: an IPv4 address is the number of its 32 bits, an IPv6 address of its 128.
mod Laws
pub mod Equality
mod Tests
use Prim.Native.Nat.{bit_and}
use y7ke.Prelude.{
  ℕ, ◌*◌, ◌+◌, ◌^◌, ◌/◌, Bool, true, false, ◌||◌, ◌&&◌, Option, none, some, List, [], ◌∷◌, ◌==◌,
  if◌then◌else◌, any, sort_by, String,
}
use y7ke.Status.{
  ConnectionKind, offline, connecting, lan, internet, direct, relayed, Transport, tcp, quic,
  IpVersion, v4, v6, ConnectionOrigin, direct_dial, relay_only, public_ipv6, public_ipv4,
}

pub data Protocol : Type 0 where
  dns dns4 dns6 : String → Protocol
  ip4 ip6 : ℕ → Protocol
  tcp_port udp_port : ℕ → Protocol
  p2p : ℕ → Protocol
  quic_draft quic_v1 p2p_circuit other : Protocol

pub data Host : Type 0 where
  name : String → Host
  v4_host v6_host : ℕ → Host

abbrev pub Multiaddr : Type 0
Multiaddr = List Protocol

via_host_from : Option Host → Multiaddr → Option Host
via_host_from host [] = none
via_host_from host (dns n ∷ ps) = via_host_from (some (name n)) ps
via_host_from host (dns4 n ∷ ps) = via_host_from (some (name n)) ps
via_host_from host (dns6 n ∷ ps) = via_host_from (some (name n)) ps
via_host_from host (ip4 ip ∷ ps) = via_host_from (some (v4_host ip)) ps
via_host_from host (ip6 ip ∷ ps) = via_host_from (some (v6_host ip)) ps
via_host_from host (p2p_circuit ∷ ps) = host
via_host_from host (_ ∷ ps) = via_host_from host ps

unfoldable pub extract_relay_via_host : Multiaddr → Option Host
unfolding via_host_from
extract_relay_via_host addr = via_host_from none addr

unfoldable pub extract_transport : Multiaddr → Option Transport
extract_transport [] = none
extract_transport (quic_v1 ∷ ps) = some quic
extract_transport (quic_draft ∷ ps) = some quic
extract_transport (tcp_port n ∷ ps) = some tcp
extract_transport (_ ∷ ps) = extract_transport ps

abbrev pub is_circuit_hop : Protocol → Bool
is_circuit_hop p2p_circuit = true
is_circuit_hop _ = false

first_ip : Multiaddr → Option IpVersion
first_ip [] = none
first_ip (ip4 ip ∷ ps) = some v4
first_ip (ip6 ip ∷ ps) = some v6
first_ip (_ ∷ ps) = first_ip ps

unfoldable pub extract_ip_version : Multiaddr → Option IpVersion
unfolding first_ip
extract_ip_version addr = if any is_circuit_hop addr then none else first_ip addr

abbrev by_family : Option IpVersion → ConnectionOrigin
by_family (some v6) = public_ipv6
by_family (some v4) = public_ipv4
by_family none = direct_dial

unfoldable pub classify_origin : ConnectionKind → Multiaddr → ConnectionOrigin
classify_origin relayed addr = relay_only
classify_origin internet addr = by_family (extract_ip_version addr)
classify_origin lan addr = direct_dial
classify_origin direct addr = direct_dial
classify_origin connecting addr = ConnectionOrigin.unknown
classify_origin offline addr = ConnectionOrigin.unknown

-- The std tests of an address: 127/8, then 10/8, 172.16/12 and 192.168/16, then 169.254/16, then 0.
unfoldable pub v4_is_lan : ℕ → Bool
v4_is_lan ip =
    ip / 2 ^ 24 == 127
    || (ip / 2 ^ 24 == 10 || ip / 2 ^ 20 == 172 * 16 + 1 || ip / 2 ^ 16 == 192 * 256 + 168)
    || ip / 2 ^ 16 == 169 * 256 + 254
    || ip == 0

-- 0xfe00 is 65024, 0xfc00 is 64512, 0xffc0 is 65472 and 0xfe80 is 65152.
unfoldable pub v6_is_lan : ℕ → Bool
v6_is_lan ip =
    if ip == 1 || ip == 0
    then true
    else let seg = ip / 2 ^ 112 in bit_and seg 65024 == 64512 || bit_and seg 65472 == 65152

unfoldable pub multiaddr_is_lan : Multiaddr → Bool
multiaddr_is_lan [] = false
multiaddr_is_lan (ip4 ip ∷ ps) = v4_is_lan ip
multiaddr_is_lan (ip6 ip ∷ ps) = v6_is_lan ip
multiaddr_is_lan (_ ∷ ps) = multiaddr_is_lan ps

-- `ConnectedPoint::is_relayed` and its remote address are the arguments.
unfoldable pub connection_kind_for : Bool → Multiaddr → ConnectionKind
connection_kind_for is_relayed remote =
    if is_relayed then relayed else if multiaddr_is_lan remote then lan else internet

-- The label of the `ip=` field of a log line.
pub data IpLabel : Type 0 where
  label_v4 label_v6 label_dns label_relay label_unknown : IpLabel

label_from : Bool → Multiaddr → IpLabel
label_from seen [] = if seen then label_relay else label_unknown
label_from seen (p2p_circuit ∷ ps) = label_from true ps
label_from false (ip4 ip ∷ ps) = label_v4
label_from false (ip6 ip ∷ ps) = label_v6
label_from false (dns n ∷ ps) = label_dns
label_from false (dns4 n ∷ ps) = label_dns
label_from false (dns6 n ∷ ps) = label_dns
label_from seen (_ ∷ ps) = label_from seen ps

unfoldable pub ip_version_str : Multiaddr → IpLabel
unfolding label_from
ip_version_str addr = label_from false addr

-- The bucket that a dial's log line names.
pub data AddrClass : Type 0 where
  class_relay class_lan class_internet : AddrClass

unfoldable pub addr_class : Multiaddr → AddrClass
addr_class addr =
    if any is_circuit_hop addr
    then class_relay
    else if multiaddr_is_lan addr
    then class_lan
    else class_internet

abbrev pub is_quic_hop : Protocol → Bool
is_quic_hop quic_v1 = true
is_quic_hop quic_draft = true
is_quic_hop _ = false

-- The loop that sets the two flags, then the `match` on them.
tier_from : Bool → Bool → Multiaddr → ℕ
tier_from is_circuit is_quic (p2p_circuit ∷ ps) = tier_from true is_quic ps
tier_from is_circuit is_quic (quic_v1 ∷ ps) = tier_from is_circuit true ps
tier_from is_circuit is_quic (quic_draft ∷ ps) = tier_from is_circuit true ps
tier_from is_circuit is_quic (_ ∷ ps) = tier_from is_circuit is_quic ps
tier_from true is_quic [] = 3
tier_from false true [] = 1
tier_from false false [] = 2

unfoldable pub tier_for : Multiaddr → ℕ
unfolding tier_from
tier_for addr = tier_from false false addr

unfoldable pub sort_addrs_for_dial : List Multiaddr → List Multiaddr
sort_addrs_for_dial addrs = sort_by tier_for addrs
