-- ===== src/Storage/Settings.antt =====
-- crates/y7ke-storage/src/dao/settings.rs and the records of crates/y7ke-core/src/settings.rs: the
-- one row of the settings, its payload as serde_json writes it. Reading the row and the time of the
-- write are not modelled.
use y7ke.Status.{DialMode, Result, err, internet_mode, ok, storage}
use y7ke.Bytes.{Bytes}
use y7ke.Prelude.{List, Option, Option-cases, [], arith, inl, inr, none, some, ℕ, ◌≡◌}

pub record Settings : Type 0 where
  pub dial_mode : DialMode
  pub extra_bootstraps : List (List ℕ)

abbrev pub default_settings : Settings
default_settings = record { dial_mode = internet_mode; extra_bootstraps = [] }

-- serde_json on the settings.
pub record SettingsCodec : Type 0 where
  pub settings_from_json : Bytes → Option Settings
  pub settings_to_json : Settings → Option Bytes

-- What is written is read again.
pub record CodecLaws (codec : SettingsCodec) : Type 0 where
  pub from-to :
      (s : Settings) (json : Bytes)
      → codec.settings_to_json s ≡ some json
      → codec.settings_from_json json ≡ some s

abbrev decoded : Option Settings → Result Settings
decoded none = err storage
decoded (some s) = ok s

unfoldable pub get : SettingsCodec → Option Bytes → Result Settings
get codec none = ok default_settings
get codec (some json) = decoded (codec.settings_from_json json)

abbrev written : Option Bytes → Result (Option Bytes)
written none = err storage
written (some json) = ok (some json)

-- The row after it.
unfoldable pub update : SettingsCodec → Settings → Result (Option Bytes)
update codec s = written (codec.settings_to_json s)

pub get-update :
    (codec : SettingsCodec) (s : Settings) (row : Option Bytes)
    → CodecLaws codec
    → update codec s ≡ ok row
    → get codec row ≡ ok s
unfolding get update
get-update codec s row laws h = elim (Option-cases (codec.settings_to_json s)) [
  | inl e ↦ ground (arith, h, e)
  | inr (json, e) ↦ ground (arith, h, e, laws.from-to s json e)
]
