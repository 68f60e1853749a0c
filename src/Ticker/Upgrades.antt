-- ===== src/Ticker/Upgrades.antt =====
-- The cadence of the attempts to upgrade a relayed connection.
use y7ke.Ticker.{should_attempt_upgrade}
use y7ke.Prelude.{Bool-cases, arith, inl, inr, ltb, suc, true, ℕ, ◌+◌, ◌<◌, ◌==◌, ◌≡◌, ◌≤◌}

abbrev NextWithin : ℕ → ℕ → Type 0
NextWithin limit n = (k : ℕ) × (k < limit) × (should_attempt_upgrade (n + suc k) ≡ true)

next_attempt : (n : ℕ) → should_attempt_upgrade n ≡ true → NextWithin 20 n
unfolding should_attempt_upgrade
next_attempt n a = elim (Bool-cases (ltb n 10)) [
  | inl e ↦ (4, omega arith, ground (arith, a, e))
  | inr e ↦ elim (Bool-cases (n == 10)) [
    | inl ten ↦ (9, omega arith, ground (arith, ten))
    | inr later ↦ (19, omega arith, ground (arith, a, e, later))
  ]
]

-- If an upgrade is tried at two visits of a relayed peer, by the count of visits before them, they are at
-- least 5 visits apart, and one is tried at one of the 20 visits after the first of them.
should_attempt_upgrade-cadence :
    (n m : ℕ)
    → should_attempt_upgrade n ≡ true
    → should_attempt_upgrade m ≡ true
    → n < m
    → (n + 5 ≤ m) × NextWithin 20 n
unfolding should_attempt_upgrade
should_attempt_upgrade-cadence n m a b lt = (ground (arith, a, b, lt), next_attempt n a)
