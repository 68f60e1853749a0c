-- ===== src/Status.antt =====
-- crates/y7ke-core/src/status.rs and the error type of crates/y7ke-core/src/error.rs.
mod Codes
use y7ke.Prelude.{Bool, true, false, ℕ, String, Option, none, some, ◌==◌, if◌then◌else◌}
use text.Mathlib.Text.{◌==◌ as str_eq}

pub data MessageStatus : Type 0 where
  sending sent delivered synced failed : MessageStatus

-- The discriminants are not negative, so the `i64` is a natural number.
unfoldable pub as_i64 : MessageStatus → ℕ
as_i64 sending = 0
as_i64 sent = 1
as_i64 delivered = 2
as_i64 synced = 3
as_i64 failed = 4

unfoldable pub from_i64 : ℕ → Option MessageStatus
from_i64 v =
    if v == 0
    then some sending
    else if v == 1
    then some sent
    else if v == 2
    then some delivered
    else if v == 3
    then some synced
    else if v == 4
    then some failed
    else none

pub data ConnectionKind : Type 0 where
  offline connecting lan internet direct relayed : ConnectionKind

pub data NatReachability : Type 0 where
  public private unknown : NatReachability

pub data Transport : Type 0 where
  tcp quic : Transport

pub data IpVersion : Type 0 where
  v4 v6 : IpVersion

pub data ConnectionOrigin : Type 0 where
  direct_dial dcutr_upgrade relay_only public_ipv6 public_ipv4 unknown : ConnectionOrigin

pub data RequestResolution : Type 0 where
  accepted rejected cancelled : RequestResolution

pub data ContactStatus : Type 0 where
  accepted pending_out pending_in blocked removed : ContactStatus

-- The constructors of `AppError`; the text that they carry is left out.
pub data DialMode : Type 0 where
  lan_only internet_mode : DialMode

abbrev pub is_lan_only : DialMode → Bool
is_lan_only lan_only = true
is_lan_only internet_mode = false

pub data AppError : Type 0 where
  invalid_y7_id invalid_public_key invalid_signature crypto storage network not_found invalid_input
        io serialization :
      AppError

pub data Result {ℓ} (A : Type ℓ) : Type ℓ where
  ok : A → Result A
  err : AppError → Result A

unfoldable pub as_str : ContactStatus → String
as_str ContactStatus.accepted = "accepted"
as_str pending_out = "pending_out"
as_str pending_in = "pending_in"
as_str blocked = "blocked"
as_str removed = "removed"

unfoldable pub from_str : String → Result ContactStatus
from_str s =
    if str_eq s "accepted"
    then ok ContactStatus.accepted
    else if str_eq s "pending_out"
    then ok pending_out
    else if str_eq s "pending_in"
    then ok pending_in
    else if str_eq s "blocked"
    then ok blocked
    else if str_eq s "removed"
    then ok removed
    else err invalid_input
