-- ===== src/RateLimit/Peers.antt =====
-- Buckets of different peers and protocols do not meet.
use y7ke.Prelude.{ℕ, ◌≡◌, ◌≢◌, arith, ◌==◌, if◌then◌else◌}
use y7ke.Map.{get-put, get-remove}
use y7ke.RateLimit.{
  RateLimiter, default_buckets, entry, allow_handshake, allow_msg, allow_sync, forget,
}

-- A call for one protocol of one peer leaves the buckets of every other peer as they were, and of
-- its own peer the buckets of the two other protocols.
allow_isolated :
    (rl : RateLimiter) (peer other now : ℕ)
    → peer ≢ other
    → ((entry (allow_handshake rl peer now).0 other ≡ entry rl other)
        × (entry (allow_msg rl peer now).0 other ≡ entry rl other)
        × (entry (allow_sync rl peer now).0 other ≡ entry rl other))
      × (((entry (allow_handshake rl peer now).0 peer).msg ≡ (entry rl peer).msg)
          × ((entry (allow_handshake rl peer now).0 peer).sync ≡ (entry rl peer).sync)
          × ((entry (allow_msg rl peer now).0 peer).handshake ≡ (entry rl peer).handshake)
          × ((entry (allow_msg rl peer now).0 peer).sync ≡ (entry rl peer).sync)
          × ((entry (allow_sync rl peer now).0 peer).handshake ≡ (entry rl peer).handshake)
          × ((entry (allow_sync rl peer now).0 peer).msg ≡ (entry rl peer).msg))
unfolding entry allow_handshake allow_msg allow_sync
allow_isolated rl peer other now h = simp get-put (ground arith)

-- Forgetting a peer resets its three buckets and no other peer's.
pub entry-forget :
    (rl : RateLimiter) (peer other : ℕ)
    → entry (forget rl peer) other ≡ (if peer == other then default_buckets else entry rl other)
unfolding entry forget
entry-forget rl peer other = simp get-remove (ground arith)
