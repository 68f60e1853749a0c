-- ===== src/Commands/Settings/Followed.antt =====
-- The task of the swarm follows the settings.
use y7ke.Swarm.Life.{spawn_swarm_with_bootstraps}
use y7ke.Swarm.Life.Frames.{spawn_swarm_with_bootstraps-frame}
use y7ke.Commands.Settings.Updated.{Updated, told_mode, update_settings-Updated}
use y7ke.Commands.Settings.Swept.{TextsLaws}
use y7ke.Commands.Settings.{Codecs, mode_changed, same_mode, update_settings}
use y7ke.Storage.Settings
use y7ke.Storage.Settings.{CodecLaws, Settings}
use y7ke.App.{App}
use y7ke.Status.{DialMode, internet_mode, lan_only, ok}
use y7ke.Config.{load_bootstraps}
use y7ke.Swarm.{Libp2p, NetCommand, TaskState, apply_dial_mode, group_bootstraps, update_bootstraps}
use y7ke.Swarm.Commands.{handle_command}
use y7ke.Swarm.Commands.Frames.{
  enter_internet-frame, enter_lan_only-frame, replace_bootstraps-frame,
}
use y7ke.Addr.{Multiaddr}
use y7ke.Prelude.{Bool, List, [], ap, false, not, refl, subst, true, ℕ, ◌∙◌, ◌∷◌, ◌≡◌}

unfoldable pub handle_all : Libp2p → List NetCommand → TaskState → TaskState
handle_all net [] t = t
handle_all net (c ∷ commands) t = handle_all net commands (handle_command net c t)

-- The settings can be read, and the task has their mode and the bootstraps that they give.
pub record Follows (codecs : Codecs) (s : App) (t : TaskState) : Type 0 where
  pub settings : Settings
  pub readable : Settings.get codecs.settings_codec s.db.settings ≡ ok settings
  pub mode : t.dial_mode ≡ settings.dial_mode
  pub bootstraps :
      t.bootstrap_peers
      ≡ group_bootstraps (load_bootstraps codecs.settings_codec codecs.parse_addr s.db.settings) []

same_mode-eq : (a b : DialMode) → not (same_mode a b) ≡ false → a ≡ b
same_mode-eq lan_only lan_only h = refl
same_mode-eq internet_mode internet_mode h = refl
same_mode-eq lan_only internet_mode h = cc
same_mode-eq internet_mode lan_only h = cc

enter_lem :
    (net : Libp2p) (mode : DialMode) (t : TaskState)
    → let u = handle_command net (apply_dial_mode mode) t in
      (u.dial_mode ≡ mode) × (u.bootstrap_peers ≡ t.bootstrap_peers)
unfolding handle_command
enter_lem net lan_only t =
    let f = enter_lan_only-frame (record t { dial_mode = lan_only }) in
    (f.dial_mode, f.bootstrap_peers)
enter_lem net internet_mode t =
    let f = enter_internet-frame net (record t { dial_mode = internet_mode }) in
    (f.dial_mode, f.bootstrap_peers)

replace_lem :
    (net : Libp2p) (addrs : List Multiaddr) (t : TaskState)
    → let u = handle_command net (update_bootstraps addrs) t in
      (u.dial_mode ≡ t.dial_mode) × (u.bootstrap_peers ≡ group_bootstraps addrs [])
unfolding handle_command
replace_lem net addrs t =
    let f = replace_bootstraps-frame addrs t in (f.dial_mode, f.bootstrap_peers)

-- The commands told, where the mode has changed and where it has not.
told_lem :
    (net : Libp2p) (changed : Bool) (old mode : DialMode) (addrs : List Multiaddr) (t : TaskState)
    → t.dial_mode ≡ old
    → (changed ≡ false → old ≡ mode)
    → let u = handle_all net (update_bootstraps addrs ∷ told_mode changed mode) t in
      (u.dial_mode ≡ mode) × (u.bootstrap_peers ≡ group_bootstraps addrs [])
unfolding handle_all
told_lem net true old mode addrs t e same =
    let (m, b) = enter_lem net mode (handle_command net (update_bootstraps addrs) t) in
    (m, b ∙ (replace_lem net addrs t).1)
told_lem net false old mode addrs t e same =
    let (m, b) = replace_lem net addrs t in (m ∙ e ∙ same refl, b)

-- A task that is spawned with what the settings say follows them.
pub spawned-Follows :
    (codecs : Codecs) (net : Libp2p) (settings : Settings) (s : App)
    → Settings.get codecs.settings_codec s.db.settings ≡ ok settings
    → Follows codecs s (
        spawn_swarm_with_bootstraps net
          (load_bootstraps codecs.settings_codec codecs.parse_addr s.db.settings)
          settings.dial_mode)
spawned-Follows codecs net settings s e =
    let addrs = load_bootstraps codecs.settings_codec codecs.parse_addr s.db.settings in
    let f = (spawn_swarm_with_bootstraps-frame net addrs settings.dial_mode).0 in
    record { settings = settings; readable = e; mode = f.dial_mode; bootstraps = f.bootstrap_peers }

-- If the task has the mode of the settings and the bootstraps that they give, it has those of the new
-- settings once the settings are updated and the task has handled the commands that this told it,
-- where serde_json reads what it writes.
pub update_settings-Follows :
    (codecs : Codecs) (net : Libp2p) (settings : Settings) (now : ℕ) (s : App) (t : TaskState)
    (commands : List NetCommand)
    → CodecLaws codecs.settings_codec
    → TextsLaws codecs.texts_codec
    → Follows codecs s t
    → (update_settings codecs settings now s).0 ≡ ok commands
    → Follows codecs (update_settings codecs settings now s).1 (handle_all net commands t)
update_settings-Follows codecs net settings now s t commands laws texts f e =
    let s' = (update_settings codecs settings now s).1 in
    let (readable, told_eq, swept) =
      subst (λ r. Updated codecs settings s (r, s')) e
        (update_settings-Updated codecs settings now s laws texts) in
    let old = f.settings in
    let same : mode_changed (ok old) settings ≡ false → old.dial_mode ≡ settings.dial_mode =
      same_mode-eq old.dial_mode settings.dial_mode in
    let addrs = load_bootstraps codecs.settings_codec codecs.parse_addr s'.db.settings in
    let (m, b) =
      told_lem net (mode_changed (ok old) settings) old.dial_mode settings.dial_mode addrs t f.mode
        same in
    let sent : commands
        ≡ update_bootstraps addrs ∷ told_mode (mode_changed (ok old) settings) settings.dial_mode =
      told_eq
      ∙ ap (λ r. update_bootstraps addrs ∷ told_mode (mode_changed r settings) settings.dial_mode)
          f.readable in
    record { settings = settings; readable = readable; mode = rw sent m; bootstraps = rw sent b }
