-- ===== src/Config/Tests.antt =====
-- Concrete lists of bootstraps. An address is parsed to its length, and the settings are written as the
-- length of their first entry.
use y7ke.Config.Loaded.{FromUser}
use y7ke.Config.Members.{Gives}
use y7ke.Config.{
  default_relay_bootstrap, expand_bootstrap, load_bootstraps, parse_multiaddrs, quic_form, slash,
  tcp_form,
}
use y7ke.Config.Loaded.{load_bootstraps-members}
use y7ke.Config.Expanded.{expand_bootstrap-forms, shorthand}
use y7ke.Text.Split.{IsPlain}
use y7ke.Addr.Equality.{IsDistinct, contains, same_addr}
use y7ke.Storage.Settings
use y7ke.Storage.Settings.{Settings, SettingsCodec}
use y7ke.Status.{internet_mode}
use y7ke.Text.{all_digits, codes, is_whitespace, split, trim, trim_end, trim_start}
use y7ke.Bytes.{Bytes}
use y7ke.Addr.{Multiaddr, Protocol, ip4}
use y7ke.Prelude.{All, In, List, Option, [], length, none, refl, some, ℕ, ◌↔◌, ◌∷◌, ◌≡◌, ◌⊎◌}

abbrev of_length : List ℕ → Protocol
of_length s = ip4 (length s)

abbrev parse_length : List ℕ → Option Multiaddr
parse_length s = some (of_length s ∷ [])

abbrev entries_json : Settings → Option Bytes
entries_json s = elim s.extra_bootstraps [ [] ↦ none | e ∷ es ↦ some e ]

abbrev codec1 : SettingsCodec
codec1 = record {
  settings_from_json =
      λ json. some (record { dial_mode = internet_mode; extra_bootstraps = json ∷ [] });
  settings_to_json = entries_json;
}

abbrev own_relay : Bytes
own_relay = codes " /dns/relay/4101/p2p/4 "

abbrev loaded : List Multiaddr
loaded = load_bootstraps codec1 parse_length (some own_relay)

loads_four : length loaded ≡ 4
unfolding load_bootstraps parse_multiaddrs trim trim_end trim_start is_whitespace expand_bootstrap
    split all_digits contains same_addr Settings.get
loads_four = refl

load_bootstraps-members_example :
    IsDistinct loaded
    × (In (of_length own_relay ∷ []) loaded ↔ (
        Gives parse_length (default_relay_bootstrap ∷ []) (of_length own_relay ∷ [])
        ⊎ FromUser codec1 parse_length (some own_relay) (of_length own_relay ∷ [])))
load_bootstraps-members_example =
    load_bootstraps-members codec1 parse_length (some own_relay) (of_length own_relay ∷ [])

dns_relay-IsPlain :
    All (IsPlain slash) (codes "dns" ∷ codes "relay" ∷ codes "4101" ∷ codes "4" ∷ [])
unfolding is_whitespace
dns_relay-IsPlain = (
  (refl, refl, (refl, refl, (refl, refl, tt))),
  (
    (refl, refl, (refl, refl, (refl, refl, (refl, refl, (refl, refl, tt))))),
    ((refl, refl, (refl, refl, (refl, refl, (refl, refl, tt)))), ((refl, refl, tt), tt)),
  ),
)

expand_bootstrap-forms_example :
    let tcp = tcp_form (codes "dns") (codes "relay") (codes "4101") (codes "4") in
    let quic = quic_form (codes "dns") (codes "relay") (codes "4101") (codes "4") in
    (expand_bootstrap (shorthand (codes "dns") (codes "relay") (codes "4101") (codes "4"))
      ≡ tcp ∷ quic ∷ [])
    × (expand_bootstrap tcp ≡ tcp ∷ [])
    × (expand_bootstrap quic ≡ quic ∷ [])
unfolding all_digits
expand_bootstrap-forms_example =
    expand_bootstrap-forms (codes "dns") (codes "relay") (codes "4101") (codes "4")
      dns_relay-IsPlain refl
