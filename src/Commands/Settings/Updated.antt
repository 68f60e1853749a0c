-- ===== src/Commands/Settings/Updated.antt =====
-- What `update_settings` leaves in the store, and what it tells the swarm.
use y7ke.Commands.Settings.Swept.{IsSwept, TextsLaws, sweep-IsSwept}
use y7ke.Commands.Settings.{
  Codecs, TextsCodec, apply_mode, mode_changed, republish, sweep_if, update_settings,
}
use y7ke.Status.{DialMode, Result, err, is_lan_only, ok}
use y7ke.App.{App, settings_changed}
use y7ke.Storage.Settings
use y7ke.Storage.Settings.{CodecLaws, Settings, get-update}
use y7ke.Storage.Contacts
use y7ke.Storage.Contacts.{Contact}
use y7ke.Storage.PeerStates.{PeerState}
use y7ke.Swarm.{NetCommand, apply_dial_mode, update_bootstraps}
use y7ke.Config.{load_bootstraps}
use y7ke.Bytes.{Bytes}
use y7ke.Storage.{Db}
use y7ke.Prelude.{
  Bool, In, List, Option, [], ap, false, if◌then◌else◌, refl, subst, sym, true, ℕ, ◌&&◌, ◌++◌, ◌∙◌,
  ◌∷◌, ◌≡◌,
}

abbrev get_settings : Codecs → App → Result Settings
get_settings codecs s = Settings.get codecs.settings_codec s.db.settings

abbrev pub told_mode : Bool → DialMode → List NetCommand
told_mode changed mode = if changed then apply_dial_mode mode ∷ [] else []

abbrev told : Codecs → Bool → Settings → App → List NetCommand
told codecs changed settings s =
    update_bootstraps (load_bootstraps codecs.settings_codec codecs.parse_addr s.db.settings)
    ∷ told_mode changed settings.dial_mode

-- The cached rows are swept, or they are those of before.
abbrev pub SweptIf : Bool → TextsCodec → List PeerState → List PeerState → Type 0
SweptIf true codec rows rows' = (row : PeerState) → In row rows' → IsSwept codec row
SweptIf false codec rows rows' = rows' ≡ rows

abbrev pub Updated : Codecs → Settings → App → Result (List NetCommand) × App → Type 0
Updated codecs settings s (err e, s') = s' ≡ s
Updated codecs settings s (ok commands, s') =
    let changed = mode_changed (get_settings codecs s) settings in
    (get_settings codecs s' ≡ ok settings)
    × (commands ≡ told codecs changed settings s')
    × SweptIf (changed && is_lan_only settings.dial_mode) codecs.texts_codec s.db.peer_state
        s'.db.peer_state

republish-db : (contacts : List Contact) (s : App) → (republish contacts s).db ≡ s.db
unfolding republish
republish-db [] s = refl
republish-db (c ∷ contacts) s = republish-db contacts _

sweep_if-settings :
    (entered : Bool) (codec : TextsCodec) (now : ℕ) (s : App)
    → (sweep_if entered codec now s).db.settings ≡ s.db.settings
unfolding sweep_if
sweep_if-settings true codec now s = refl
sweep_if-settings false codec now s = refl

sweep_if-SweptIf :
    (entered : Bool) (codec : TextsCodec) (now : ℕ) (s : App)
    → TextsLaws codec
    → SweptIf entered codec s.db.peer_state (sweep_if entered codec now s).db.peer_state
unfolding sweep_if
sweep_if-SweptIf true codec now s laws = λ row m. sweep-IsSwept codec s.db.peer_state now row laws m
sweep_if-SweptIf false codec now s laws = refl

apply_mode-settings :
    (codec : TextsCodec) (settings : Settings) (now : ℕ) (s : App)
    → (apply_mode codec settings now s).db.settings ≡ s.db.settings
unfolding apply_mode
apply_mode-settings codec settings now s =
    sweep_if-settings (is_lan_only settings.dial_mode) codec now _
    ∙ ap (λ (db : Db). db.settings) (republish-db (Contacts.list s.db.contacts) s)

apply_mode-SweptIf :
    (codec : TextsCodec) (settings : Settings) (now : ℕ) (s : App)
    → TextsLaws codec
    → SweptIf
        (is_lan_only settings.dial_mode)
        codec
        s.db.peer_state
        (apply_mode codec settings now s).db.peer_state
unfolding apply_mode
apply_mode-SweptIf codec settings now s laws =
    let e = ap (λ (db : Db). db.peer_state) (republish-db (Contacts.list s.db.contacts) s) in
    subst
      (λ rows.
        SweptIf (is_lan_only settings.dial_mode) codec rows
          (apply_mode codec settings now s).db.peer_state)
      e (sweep_if-SweptIf (is_lan_only settings.dial_mode) codec now _ laws)

abbrev apply_if : Bool → TextsCodec → Settings → ℕ → App → App
apply_if changed codec settings now s = if changed then apply_mode codec settings now s else s

apply_if-settings :
    (changed : Bool) (codec : TextsCodec) (settings : Settings) (now : ℕ) (s : App)
    → (apply_if changed codec settings now s).db.settings ≡ s.db.settings
apply_if-settings true codec settings now s = apply_mode-settings codec settings now s
apply_if-settings false codec settings now s = refl

apply_if-SweptIf :
    (changed : Bool) (codec : TextsCodec) (settings : Settings) (now : ℕ) (s : App)
    → TextsLaws codec
    → SweptIf
        (changed && is_lan_only settings.dial_mode)
        codec
        s.db.peer_state
        (apply_if changed codec settings now s).db.peer_state
apply_if-SweptIf true codec settings now s laws = apply_mode-SweptIf codec settings now s laws
apply_if-SweptIf false codec settings now s laws = refl

abbrev update_onto :
    Codecs → Settings → ℕ → App → Result (Option Bytes) → Result (List NetCommand) × App
update_onto codecs settings now s (err e) = (err e, s)
update_onto codecs settings now s (ok row) =
    let stored = record s { db = record (s.db) { settings = row } } in
    let changed = mode_changed (get_settings codecs s) settings in
    let s' = apply_if changed codecs.texts_codec settings now stored in
    (
      ok (
          update_bootstraps (load_bootstraps codecs.settings_codec codecs.parse_addr row)
          ∷ told_mode changed settings.dial_mode),
      record s' { events = s'.events ++ settings_changed ∷ [] },
    )

update_settings-eq :
    (codecs : Codecs) (settings : Settings) (now : ℕ) (s : App) (r : Result (Option Bytes))
    → Settings.update codecs.settings_codec settings ≡ r
    → update_settings codecs settings now s ≡ update_onto codecs settings now s r
unfolding update_settings
update_settings-eq codecs settings now s (err e) h = rw (h) refl
update_settings-eq codecs settings now s (ok row) h = rw (h) refl

update_onto-Updated :
    (codecs : Codecs) (settings : Settings) (now : ℕ) (s : App) (r : Result (Option Bytes))
    → CodecLaws codecs.settings_codec
    → TextsLaws codecs.texts_codec
    → Settings.update codecs.settings_codec settings ≡ r
    → Updated codecs settings s (update_onto codecs settings now s r)
update_onto-Updated codecs settings now s (err e) laws texts h = refl
update_onto-Updated codecs settings now s (ok row) laws texts h =
    let stored = record s { db = record (s.db) { settings = row } } in
    let changed = mode_changed (get_settings codecs s) settings in
    let kept = apply_if-settings changed codecs.texts_codec settings now stored in
    (
      rw (kept) (get-update codecs.settings_codec settings row laws h),
      rw (kept) refl,
      apply_if-SweptIf changed codecs.texts_codec settings now stored texts,
    )

-- Where serde_json reads what it writes: once the settings are updated, they are read back as given;
-- the swarm is told the bootstraps that the new settings hold, and the mode where it changed; and where
-- the mode changed to LanOnly no row that can be read caches an address of a circuit, while in every
-- other case the rows are as before. Settings that fail to be written leave everything as it was.
pub update_settings-Updated :
    (codecs : Codecs) (settings : Settings) (now : ℕ) (s : App)
    → CodecLaws codecs.settings_codec
    → TextsLaws codecs.texts_codec
    → Updated codecs settings s (update_settings codecs settings now s)
update_settings-Updated codecs settings now s laws texts =
    let r = Settings.update codecs.settings_codec settings in
    subst (Updated codecs settings s) (sym (update_settings-eq codecs settings now s r refl))
      (update_onto-Updated codecs settings now s r laws texts refl)
