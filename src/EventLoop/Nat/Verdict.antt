-- ===== src/EventLoop/Nat/Verdict.antt =====
-- The verdict of the NAT probes, over runs of probes.
use y7ke.Prelude.{ℕ, zero, suc, ◌≡◌, refl, true, false, ◌^◌, ◌-◌, min, leb, if◌then◌else◌, arith}
use y7ke.Status.{public, private}
use y7ke.App.{NatStatusState}
use y7ke.EventLoop.Nat.{absorb_probe}

-- A run of failed probes.
unfoldable pub misses : ℕ → NatStatusState → NatStatusState
misses zero state = state
misses (suc n) state = absorb_probe (misses n state) false

misses-private :
    (n : ℕ) (state : NatStatusState) → state.verdict ≡ private → (misses n state).verdict ≡ private
unfolding misses absorb_probe
misses-private zero state p = p
misses-private (suc n) state p = ground (arith, misses-private n state p)

misses-state :
    (n : ℕ)
    → (misses n (record { verdict = public; consecutive_failures = 0 })).consecutive_failures
      ≡ min n (2 ^ 32 - 1)
unfolding misses absorb_probe
misses-state zero = refl
misses-state (suc n) = ground (arith, misses-state n)

-- After a successful probe the verdict is public whatever it was, two failures in a row leave it
-- public, and from the third failure on it is private.
misses-after_hit :
    (n : ℕ) (state : NatStatusState)
    → (misses n (absorb_probe state true)).verdict ≡ (if leb 3 n then private else public)
unfolding misses absorb_probe
misses-after_hit zero state = refl
misses-after_hit (suc n) state = ground (arith, misses-after_hit n state, misses-state n)
