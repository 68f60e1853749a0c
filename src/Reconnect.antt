-- ===== src/Reconnect.antt =====
-- crates/y7ke-app/src/reconnect.rs: the cooldown between two attempts to reach an offline peer.
-- Times are in milliseconds. `Duration` saturates at about 2^64 s and `u32` at 2^32 - 1; both
-- saturations are written out.
mod Schedule
mod Tests
use y7ke.Prelude.{ℕ, ◌+◌, ◌*◌, ◌-◌, ◌^◌, Bool, true, false, leb, if◌then◌else◌, min}
use y7ke.Prelude.{Option, none, some}

abbrev pub base : ℕ
base = 30000

abbrev pub max_step : ℕ
max_step = 6

abbrev pub ceiling : ℕ
ceiling = 600000

abbrev pub u32_max : ℕ
u32_max = 2 ^ 32 - 1

-- The largest `Duration`, to the millisecond.
abbrev pub duration_max : ℕ
duration_max = 2 ^ 64 * 1000 - 1

pub record Backoff : Type 0 where
  pub attempts : ℕ
  pub next_at : ℕ

unfoldable pub ready : ℕ → Backoff
ready now = record { attempts = 0; next_at = now }

unfoldable pub due : Backoff → ℕ → Bool
due b now = leb b.next_at now

-- `1u32 << n` for the shifts that occur, `Duration::checked_mul` and `unwrap_or`.
checked_mul : ℕ → ℕ → Option ℕ
checked_mul d factor = if leb (d * factor) duration_max then some (d * factor) else none

abbrev unwrap_or : Option ℕ → ℕ → ℕ
unwrap_or none d = d
unwrap_or (some a) d = a

unfoldable pub cooldown_for : ℕ → ℕ
unfolding checked_mul
cooldown_for step =
    let factor = 2 ^ min step max_step in min (unwrap_or (checked_mul base factor) ceiling) ceiling

abbrev saturating_add : ℕ → ℕ → ℕ → ℕ
saturating_add top a b = min (a + b) top

unfoldable pub record_attempt : Backoff → ℕ → ℕ → Backoff
record_attempt b now jitter =
    let wait = saturating_add duration_max (cooldown_for b.attempts) jitter in
    record { attempts = saturating_add u32_max b.attempts 1; next_at = now + wait }

-- `should_dial` of the presence ticker (crates/y7ke-app/src/app.rs): the entry of the backoff map,
-- made ready when it is missing, and whether this visit dials.
abbrev or_ready : Option Backoff → ℕ → Backoff
or_ready none now = ready now
or_ready (some b) now = b

unfoldable pub should_dial : Option Backoff → ℕ → ℕ → Backoff × Bool
unfolding due record_attempt ready
should_dial entry now jitter =
    let b = or_ready entry now in
    if due b now then (record_attempt b now jitter, true) else (b, false)
