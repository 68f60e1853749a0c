-- ===== src/Config.antt =====
-- `expand_bootstrap` of crates/y7ke-core/src/settings.rs and crates/y7ke-app/src/config.rs: the list of
-- bootstraps. The parser of addresses is a parameter; a descriptor that it refuses is left out.
mod Members
mod Loaded
mod Expanded
mod Tests
use y7ke.Status.{Result, err, ok}
use y7ke.Bytes.{Bytes}
use y7ke.Text.{all_digits, codes, same_text, split, trim}
use y7ke.Storage.Settings
use y7ke.Storage.Settings.{Settings, SettingsCodec}
use y7ke.Addr.{Multiaddr}
use y7ke.Addr.Equality.{contains}
use y7ke.Swarm.{push_new}
use y7ke.Prelude.{
  Bool, List, Option, [], false, if◌then◌else◌, none, some, true, ℕ, ◌&&◌, ◌++◌, ◌||◌, ◌∷◌,
}

abbrev pub slash : ℕ
slash = b'/'

abbrev pub default_relay_bootstrap : List ℕ
default_relay_bootstrap =
    codes "/dns/bootstrap1.y7v.lol/4101/p2p/12D3KooWEVq9A1w4xk1paGxywwPNy4vz8D92wxE4XKBh8DpA8fSo"

-- The constant of crates/y7ke-net/src/swarm.rs.
abbrev pub default_bootstraps : List (List ℕ)
default_bootstraps = default_relay_bootstrap ∷ []

abbrev pub is_net : List ℕ → Bool
is_net s =
    same_text s (codes "dns")
    || same_text s (codes "dns4")
    || same_text s (codes "dns6")
    || same_text s (codes "ip4")
    || same_text s (codes "ip6")

abbrev pub is_nonempty : List ℕ → Bool
is_nonempty [] = false
is_nonempty (c ∷ cs) = true

abbrev pub is_shorthand : List ℕ → List ℕ → List ℕ → List ℕ → List ℕ → Bool
is_shorthand net host port keyword id =
    is_net net
    && is_nonempty host
    && is_nonempty port
    && all_digits port
    && same_text keyword (codes "p2p")
    && is_nonempty id

abbrev pub tcp_form : List ℕ → List ℕ → List ℕ → List ℕ → List ℕ
tcp_form net host port id =
    slash ∷ (net ++ slash ∷ (host ++ codes "/tcp/" ++ (port ++ codes "/p2p/" ++ id)))

abbrev pub quic_form : List ℕ → List ℕ → List ℕ → List ℕ → List ℕ
quic_form net host port id =
    slash ∷ (net ++ slash ∷ (host ++ codes "/udp/" ++ (port ++ codes "/quic-v1/p2p/" ++ id)))

-- The pieces of the text: the first of six is not looked at.
unfoldable pub expand_pieces : List ℕ → List (List ℕ) → List (List ℕ)
expand_pieces s (first ∷ net ∷ host ∷ port ∷ keyword ∷ id ∷ []) =
    if is_shorthand net host port keyword id
    then tcp_form net host port id ∷ quic_form net host port id ∷ []
    else s ∷ []
expand_pieces s _ = s ∷ []

unfoldable pub expand_bootstrap : List ℕ → List (List ℕ)
unfolding expand_pieces
expand_bootstrap s = let text = trim s in expand_pieces text (split slash text)

abbrev Parser : Type 0
Parser = List ℕ → Option Multiaddr

abbrev pub push_parsed : Option Multiaddr → List Multiaddr → List Multiaddr
push_parsed none out = out
push_parsed (some m) out = push_new m out

unfoldable pub push_expanded : Parser → List (List ℕ) → List Multiaddr → List Multiaddr
push_expanded parse [] out = out
push_expanded parse (s ∷ ss) out = push_expanded parse ss (push_parsed (parse s) out)

unfoldable pub parse_onto : Parser → List (List ℕ) → List Multiaddr → List Multiaddr
unfolding push_expanded
parse_onto parse [] out = out
parse_onto parse (s ∷ ss) out =
    let entry = trim s in
    parse_onto parse ss
      (if is_nonempty entry then push_expanded parse (expand_bootstrap entry) out else out)

unfoldable pub parse_multiaddrs : Parser → List (List ℕ) → List Multiaddr
unfolding parse_onto
parse_multiaddrs parse entries = parse_onto parse entries []

abbrev pub or_default : List Multiaddr → List Multiaddr → List Multiaddr
or_default defaults [] = defaults
or_default defaults (m ∷ ms) = m ∷ ms

-- Where the settings have no entries, none that parses or cannot be read, the defaults stand.
abbrev pub user_or_default : Parser → Result Settings → List Multiaddr
user_or_default parse (err e) = parse_multiaddrs parse default_bootstraps
user_or_default parse (ok s) =
    or_default (parse_multiaddrs parse default_bootstraps)
      (parse_multiaddrs parse s.extra_bootstraps)

unfoldable pub load_user_sources : SettingsCodec → Parser → Option Bytes → List Multiaddr
load_user_sources codec parse row = user_or_default parse (Settings.get codec row)

-- The loop over the defaults in reverse, each put in front.
unfoldable pub prepend_new : List Multiaddr → List Multiaddr → List Multiaddr
prepend_new [] result = result
prepend_new (d ∷ defaults) result =
    let rest = prepend_new defaults result in if contains d rest then rest else d ∷ rest

unfoldable pub load_bootstraps : SettingsCodec → Parser → Option Bytes → List Multiaddr
unfolding prepend_new load_user_sources
load_bootstraps codec parse row =
    prepend_new (parse_multiaddrs parse default_bootstraps) (load_user_sources codec parse row)
