-- ===== src/RateLimit.antt =====
-- crates/y7ke-app/src/rate_limit.rs: a sliding-window limiter with three buckets for each peer.
-- `Instant` and `Duration` are numbers of one unit, counted from an origin before every event, so
-- that the truncated `now - window` keeps the same events as the source's difference.
mod Window
mod Peers
mod Tests
use y7ke.Prelude.{
  ℕ, ◌-◌, Bool, true, false, List, [], ◌∷◌, ◌++◌, leb, if◌then◌else◌, length, retain,
}
use y7ke.Prelude.{Option, none, some}
use y7ke.Map
use y7ke.Map.{Map}

pub record BucketLimit : Type 0 where
  pub max_events : ℕ
  pub window : ℕ

pub record Bucket : Type 0 where
  pub events : List ℕ

abbrev pub empty_bucket : Bucket
empty_bucket = record { events = [] }

unfoldable pub try_consume : Bucket → BucketLimit → ℕ → Bucket × Bool
try_consume b limit now =
    let cutoff = now - limit.window in
    let events = retain (λ t. leb cutoff t) b.events in
    if leb limit.max_events (length events)
    then (record { events = events }, false)
    else (record { events = events ++ now ∷ [] }, true)

pub record PeerBuckets : Type 0 where
  pub handshake : Bucket
  pub msg : Bucket
  pub sync : Bucket

abbrev pub default_buckets : PeerBuckets
default_buckets = record { handshake = empty_bucket; msg = empty_bucket; sync = empty_bucket }

pub record RateLimiter : Type 0 where
  pub inner : Map PeerBuckets
  pub handshake_limit : BucketLimit
  pub msg_limit : BucketLimit
  pub sync_limit : BucketLimit

-- Windows of 60 s, in milliseconds.
unfoldable pub default_limits : RateLimiter
default_limits = record {
  inner = [];
  handshake_limit = record { max_events = 60; window = 60000 };
  msg_limit = record { max_events = 1200; window = 60000 };
  sync_limit = record { max_events = 256; window = 60000 };
}

abbrev or_default : Option PeerBuckets → PeerBuckets
or_default none = default_buckets
or_default (some b) = b

-- `g.entry(peer).or_default()`
unfoldable pub entry : RateLimiter → ℕ → PeerBuckets
entry rl peer = or_default (Map.get peer rl.inner)

unfoldable pub allow_handshake : RateLimiter → ℕ → ℕ → RateLimiter × Bool
allow_handshake rl peer now =
    let e = entry rl peer in
    let (b, allowed) = try_consume e.handshake rl.handshake_limit now in
    (record rl { inner = Map.put peer (record e { handshake = b }) rl.inner }, allowed)

unfoldable pub allow_msg : RateLimiter → ℕ → ℕ → RateLimiter × Bool
allow_msg rl peer now =
    let e = entry rl peer in
    let (b, allowed) = try_consume e.msg rl.msg_limit now in
    (record rl { inner = Map.put peer (record e { msg = b }) rl.inner }, allowed)

unfoldable pub allow_sync : RateLimiter → ℕ → ℕ → RateLimiter × Bool
allow_sync rl peer now =
    let e = entry rl peer in
    let (b, allowed) = try_consume e.sync rl.sync_limit now in
    (record rl { inner = Map.put peer (record e { sync = b }) rl.inner }, allowed)

unfoldable pub forget : RateLimiter → ℕ → RateLimiter
forget rl peer = record rl { inner = Map.remove peer rl.inner }
