-- ===== src/EventLoop.antt =====
-- crates/y7ke-app/src/event_loop.rs: the handlers of the app's event loop, one child module for
-- each concern. A handler reads each clock once.
pub mod Wipe
pub mod Inbox
pub mod Contacting
pub mod Syncing
pub mod Outbox
pub mod Reconcile
pub mod Connections
pub mod Nat
pub mod Dispatch
mod Tests
use y7ke.Prelude.{ℕ, ◌+◌, ◌*◌, ◌^◌, min}

-- `Instant::now` in milliseconds and `now_ms`.
pub record Times : Type 0 where
  pub instant : ℕ
  pub now : ℕ

-- `attempts` is at most 7 where it shifts, and never negative in the table.
unfoldable pub next_retry_at : ℕ → ℕ → ℕ
next_retry_at attempts now =
    let secs = 2 ^ min attempts 7 * 30 in let capped = min secs 3600 in now + capped * 1000
