-- ===== src/Commands/Settings.antt =====
-- `update_settings`, `sweep_stale_relay_addrs` and `list_active_connections` of
-- crates/y7ke-app/src/app/settings.rs. A command of the swarm is given to its task, whose answer is
-- logged only: the commands given come back.
pub mod Swept
pub mod Updated
pub mod Followed
mod Tests
use y7ke.App.{◌>>=◌, ◌>>◌}
use y7ke.Status.{ConnectionKind, DialMode, Result, err, internet_mode, is_lan_only, lan_only, ok}
use y7ke.App.{
  App, Exec, emit, gets, lift, modify, over_db, presence_changed, pure, settings_changed,
}
use y7ke.Storage.Settings
use y7ke.Storage.Settings.{Settings, SettingsCodec}
use y7ke.Storage.Contacts
use y7ke.Storage.Contacts.{Contact}
use y7ke.Storage.PeerStates
use y7ke.Storage.PeerStates.{PeerState}
use y7ke.Presence.{ConnectionMeta, default_meta, is_offline, refresh_presence}
use y7ke.Swarm.{NetCommand, apply_dial_mode, update_bootstraps}
use y7ke.Config.{load_bootstraps}
use y7ke.Dialing.{circuit_text}
use y7ke.Text.{has_part}
use y7ke.Bytes.{Bytes}
use y7ke.Ident.{Y7Id}
use y7ke.Addr.{Multiaddr}
use y7ke.Map
use y7ke.Map.{Map}
use y7ke.Prelude.{
  Bool, List, Option, [], any, false, if◌then◌else◌, none, not, retain, some, true, ℕ, ◌&&◌, ◌++◌,
  ◌==◌, ◌∷◌,
}

-- serde_json on the list of cached addresses.
pub record TextsCodec : Type 0 where
  pub texts_from_json : Bytes → Option (List (List ℕ))
  pub texts_to_json : List (List ℕ) → Option Bytes

abbrev pub without_circuits : List (List ℕ) → List (List ℕ)
without_circuits texts = retain (λ s. not (has_part circuit_text s)) texts

abbrev pub to_json_unless_empty : TextsCodec → List (List ℕ) → Option Bytes
to_json_unless_empty codec [] = none
to_json_unless_empty codec (s ∷ texts) = codec.texts_to_json (s ∷ texts)

abbrev pub decoded_texts : TextsCodec → Option Bytes → Option (List (List ℕ))
decoded_texts codec none = none
decoded_texts codec (some json) = codec.texts_from_json json

abbrev pub sweep_decoded :
    TextsCodec → Option (List (List ℕ)) → Y7Id → ℕ → List PeerState → List PeerState
sweep_decoded codec none peer now rows = rows
sweep_decoded codec (some texts) peer now rows =
    PeerStates.upsert_seen rows peer (to_json_unless_empty codec (without_circuits texts)) now

unfoldable pub sweep_each : TextsCodec → List PeerState → ℕ → List PeerState → List PeerState
sweep_each codec [] now rows = rows
sweep_each codec (p ∷ peers) now rows =
    sweep_each codec peers now
      (sweep_decoded codec (decoded_texts codec p.last_addrs_json) p.peer_y7_id now rows)

unfoldable pub sweep_stale_relay_addrs : TextsCodec → ℕ → List PeerState → List PeerState
unfolding sweep_each
sweep_stale_relay_addrs codec now rows = sweep_each codec rows now rows

abbrev pub same_mode : DialMode → DialMode → Bool
same_mode lan_only lan_only = true
same_mode internet_mode internet_mode = true
same_mode lan_only internet_mode = false
same_mode internet_mode lan_only = false

abbrev pub mode_changed : Result Settings → Settings → Bool
mode_changed (err e) new = true
mode_changed (ok old) new = not (same_mode old.dial_mode new.dial_mode)

-- The presence of each contact is computed again and told.
unfoldable pub republish : List Contact → App → App
republish [] s = s
republish (c ∷ contacts) s =
    let (p, best) = refresh_presence s.presences c.y7_id in
    republish contacts
      (record s { presences = p; events = s.events ++ presence_changed c.y7_id best.0 best.1 ∷ [] })

unfoldable pub sweep_if : Bool → TextsCodec → ℕ → App → App
sweep_if entered codec now s =
    if entered
    then record s {
      db = record (s.db) { peer_state = sweep_stale_relay_addrs codec now s.db.peer_state };
    }
    else s

unfoldable pub apply_mode : TextsCodec → Settings → ℕ → App → App
unfolding republish sweep_if
apply_mode codec settings now s =
    let told = republish (Contacts.list s.db.contacts) s in
    sweep_if (is_lan_only settings.dial_mode) codec now
      (record told { upgrade_backoff = []; woken = true })

-- What serde_json and the parser of addresses do.
pub record Codecs : Type 0 where
  pub settings_codec : SettingsCodec
  pub texts_codec : TextsCodec
  pub parse_addr : List ℕ → Option Multiaddr

unfoldable pub update_settings : Codecs → Settings → ℕ → Exec (List NetCommand)
unfolding apply_mode
update_settings codecs settings now = do
  old ← gets (λ s. Settings.get codecs.settings_codec s.db.settings)
  row ← lift (Settings.update codecs.settings_codec settings)
  modify (over_db (λ db. record db { settings = row }))
  let changed = mode_changed old settings
  modify (λ s. if changed then apply_mode codecs.texts_codec settings now s else s)
  emit settings_changed
  let addrs = load_bootstraps codecs.settings_codec codecs.parse_addr row
  pure (update_bootstraps addrs ∷ (if changed then apply_dial_mode settings.dial_mode ∷ [] else []))

abbrev is_contact : Y7Id → List Contact → Bool
is_contact y7 contacts = any (λ (c : Contact). c.y7_id == y7) contacts

pub record ConnectionView : Type 0 where
  pub y7_id : Y7Id
  pub kind : ConnectionKind
  pub meta : ConnectionMeta

abbrev meta_or_default : Option ConnectionMeta → ConnectionMeta
meta_or_default none = default_meta
meta_or_default (some m) = m

unfoldable pub views_of :
    List Contact → Map ConnectionMeta → Map ConnectionKind → List ConnectionView
views_of contacts metas [] = []
views_of contacts metas ((y7, kind) ∷ presence) =
    let rest = views_of contacts metas presence in
    if not (is_offline kind) && is_contact y7 contacts
    then record { y7_id = y7; kind = kind; meta = meta_or_default (Map.get y7 metas) } ∷ rest
    else rest

-- Contacts that are not offline, whose presence and connection are in the caches.
unfoldable pub list_active_connections : App → List ConnectionView
unfolding views_of
list_active_connections s =
    views_of (Contacts.list s.db.contacts) s.presences.connection_meta s.presences.presence
