-- ===== src/Commands/Settings/Tests.antt =====
-- Concrete settings, written as their mode; a list of one address is written as its text.
use y7ke.Commands.Settings.Followed.{Follows, handle_all, spawned-Follows, update_settings-Follows}
use y7ke.Swarm.Life.{spawn_swarm_with_bootstraps}
use y7ke.Swarm.{Libp2p, NetCommand, TaskState, apply_dial_mode, dial_issued, update_bootstraps}
use y7ke.Commands.Settings.Updated.{Updated, update_settings-Updated}
use y7ke.Commands.Settings.Swept.{TextsLaws}
use y7ke.Commands.Bootstraps.Selected.{Selects, select_best_bootstrap-Selects}
use y7ke.Commands.Bootstraps.{BootstrapPingState, ping_all_bootstraps, select_best_bootstrap}
use y7ke.Commands.Settings.{Codecs, apply_mode, update_settings}
use y7ke.Storage.Settings
use y7ke.Storage.Settings.{CodecLaws, Settings, default_settings, get, update}
use y7ke.App.{App}
use y7ke.Status.{DialMode, internet_mode, lan_only, ok}
use y7ke.Storage.PeerStates.{PeerState}
use y7ke.Config.{load_bootstraps}
use y7ke.Text.{codes}
use y7ke.Bytes.{Bytes}
use y7ke.Addr.{ip4}
use y7ke.Samples.{app1}
use y7ke.Prelude.{
  List, Option, [], arith, false, length, none, refl, some, suc, true, zero, ℕ, ◌∷◌, ◌≡◌,
}

abbrev mode_byte : DialMode → ℕ
mode_byte lan_only = 0
mode_byte internet_mode = 1

abbrev mode_of : ℕ → DialMode
mode_of zero = lan_only
mode_of (suc n) = internet_mode

-- Only settings without bootstraps of their own can be written.
abbrev mode_json : Settings → Option Bytes
mode_json s = elim s.extra_bootstraps [ [] ↦ some (mode_byte s.dial_mode ∷ []) | e ∷ es ↦ none ]

abbrev mode_from : Bytes → Option Settings
mode_from [] = none
mode_from (n ∷ ns) = some (record { dial_mode = mode_of n; extra_bootstraps = [] })

-- Only a list of one text can be written.
abbrev one_json : List (List ℕ) → Option Bytes
one_json (s ∷ []) = some s
one_json _ = none

abbrev codecs1 : Codecs
codecs1 = record {
  settings_codec = record { settings_from_json = mode_from; settings_to_json = mode_json };
  texts_codec = record { texts_from_json = λ json. some (json ∷ []); texts_to_json = one_json };
  parse_addr = λ s. some (ip4 (length s) ∷ []);
}

written_back :
    (mode : DialMode) (extra : List (List ℕ)) (json : Bytes)
    → mode_json (record { dial_mode = mode; extra_bootstraps = extra }) ≡ some json
    → mode_from json ≡ some (record { dial_mode = mode; extra_bootstraps = extra })
written_back lan_only [] json h = ground (arith, h)
written_back internet_mode [] json h = ground (arith, h)
written_back mode (e ∷ es) json h = ground (arith, h)

text_back :
    (texts : List (List ℕ)) (json : Bytes)
    → one_json texts ≡ some json
    → some (json ∷ []) ≡ some texts
text_back [] json h = ground (arith, h)
text_back (s ∷ []) json h = ground (arith, h)
text_back (s ∷ t ∷ texts) json h = ground (arith, h)

settings_laws : CodecLaws codecs1.settings_codec
settings_laws = record { from-to = λ s json h. written_back s.dial_mode s.extra_bootstraps json h }

texts_laws : TextsLaws codecs1.texts_codec
texts_laws = record { from-to = λ texts json h. text_back texts json h }

abbrev lan_settings : Settings
lan_settings = record { dial_mode = lan_only; extra_bootstraps = [] }

-- A peer whose cached address is a circuit.
abbrev row2 : PeerState
row2 = record {
  peer_y7_id = 2;
  last_addrs_json = some (codes "/p2p/4/p2p-circuit");
  last_seen_at = some 1000;
  highest_seen_message_id = none;
  highest_sent_message_id = none;
}

abbrev app2 : App
app2 = record app1 { db = record (app1.db) { peer_state = row2 ∷ [] } }

update_settings-Updated_example :
    Updated codecs1 lan_settings app2 (update_settings codecs1 lan_settings 2000 app2)
update_settings-Updated_example =
    update_settings-Updated codecs1 lan_settings 2000 app2 settings_laws texts_laws

abbrev ping_by_length : List ℕ → BootstrapPingState
ping_by_length s = record { last_ping_ms = some (length s); last_ping_failed = false }

select_best_bootstrap-Selects_example :
    Selects
      (select_best_bootstrap codecs1.settings_codec ping_by_length (some (1 ∷ [])) [])
      (ping_all_bootstraps codecs1.settings_codec ping_by_length (some (1 ∷ [])) []).0
select_best_bootstrap-Selects_example =
    select_best_bootstrap-Selects codecs1.settings_codec ping_by_length (some (1 ∷ [])) []

abbrev net1 : Libp2p
net1 = record {
  dial_outcome = λ calls. dial_issued;
  is_connected = λ calls peer. false;
  listener = λ calls. some 7;
  provides = λ calls. true;
  request_id = λ calls. length calls;
  query_id = λ calls. length calls;
  local_peer_id = 1;
  peer_id_from_y7 = λ y7. some y7;
  y7_id_from_peer_id = λ peer. some peer;
}

abbrev task2 : TaskState
task2 =
    spawn_swarm_with_bootstraps net1
      (load_bootstraps codecs1.settings_codec codecs1.parse_addr none) internet_mode

reads_default : Settings.get codecs1.settings_codec app2.db.settings ≡ ok default_settings
unfolding get
reads_default = refl

abbrev told2 : List NetCommand
told2 =
    update_bootstraps (load_bootstraps codecs1.settings_codec codecs1.parse_addr (some (0 ∷ [])))
    ∷ apply_dial_mode lan_only
    ∷ []

tells_lan : (update_settings codecs1 lan_settings 2000 app2).0 ≡ ok told2
unfolding update_settings get update apply_mode
tells_lan = refl

update_settings-Follows_example :
    Follows codecs1 (update_settings codecs1 lan_settings 2000 app2).1 (handle_all net1 told2 task2)
update_settings-Follows_example =
    update_settings-Follows codecs1 net1 lan_settings 2000 app2 task2 told2 settings_laws texts_laws
      (spawned-Follows codecs1 net1 default_settings app2 reads_default) tells_lan
