-- ===== src/Reconnect/Schedule.antt =====
-- The schedule: doubling from the base, capped, and at most one attempt for each cooldown.
use y7ke.Prelude.{
  ℕ, zero, suc, ◌+◌, ◌*◌, ◌≤◌, ◌≡◌, refl, List, [], ◌∷◌, arith, min, leb, if◌then◌else◌, Bool-cases,
  inl, inr, ap, ◌∙◌, sym, Option, some, none, leb→le, ◌==◌, ==_iff,
}
use y7ke.Reconnect.{
  Backoff, base, ceiling, max_step, u32_max, ready, cooldown_for, record_attempt, should_dial,
}

cooldown_for_late : (step : ℕ) → 6 ≤ step → cooldown_for step ≡ ceiling
unfolding cooldown_for
cooldown_for_late step h = let e : min step max_step ≡ 6 = omega arith in rw (e, cooldown_for) refl

cooldown_for_early :
    (step : ℕ) → step ≤ 5 → cooldown_for (suc step) ≡ min (2 * cooldown_for step) ceiling
unfolding cooldown_for
cooldown_for_early zero h = refl
cooldown_for_early (suc zero) h = refl
cooldown_for_early (suc (suc zero)) h = refl
cooldown_for_early (suc (suc (suc zero))) h = refl
cooldown_for_early (suc (suc (suc (suc zero)))) h = refl
cooldown_for_early (suc (suc (suc (suc (suc zero))))) h = refl
cooldown_for_early (suc (suc (suc (suc (suc (suc n)))))) h = absurd (omega arith)

-- The first cooldown is the base, each next one is twice the one before as far as the ceiling
-- allows, and from step 5 on each is the ceiling of ten minutes.
pub cooldown_for_schedule :
    (step : ℕ)
    → (cooldown_for 0 ≡ base)
      × (cooldown_for (suc step) ≡ min (2 * cooldown_for step) ceiling)
      × (cooldown_for (step + 5) ≡ ceiling)
cooldown_for_schedule step = (unfold cooldown_for in refl, doubles, capped)
  where
    doubles : cooldown_for (suc step) ≡ min (2 * cooldown_for step) ceiling
    doubles = elim (Bool-cases (leb step 5)) [
      | inl early ↦ cooldown_for_early step (leb→le step 5 early)
      | inr late ↦
          cooldown_for_late (suc step) (ground arith)
          ∙ rw (cooldown_for_late step (ground arith)) refl
    ]

    capped : cooldown_for (step + 5) ≡ ceiling
    capped = elim (Bool-cases (step == 0)) [
      | inl first ↦ rw ((==_iff step 0).0 first) (unfold cooldown_for in refl)
      | inr more ↦ cooldown_for_late (step + 5) (ground arith)
    ]

cooldown_for_saturated : (k : ℕ) → cooldown_for (min k u32_max) ≡ cooldown_for k
cooldown_for_saturated k = elim (Bool-cases (leb k u32_max)) [
  | inl small ↦ ap cooldown_for (ground arith)
  | inr big ↦
      cooldown_for_late (min k u32_max) (ground arith) ∙ sym (cooldown_for_late k (ground arith))
]

-- The visits of one offline peer: the clock and the jitter at each tick. The dials, oldest first.
unfoldable pub dials : Option Backoff → List (ℕ × ℕ) → List ℕ
dials entry [] = []
dials entry ((now, jitter) ∷ later) =
    let rest = dials (some (should_dial entry now jitter).0) later in
    if (should_dial entry now jitter).1 then now ∷ rest else rest

-- The first of the dials comes no sooner than `t`, and each next one no sooner than the cooldown of
-- its step after the one before.
abbrev pub Spaced : ℕ → ℕ → List ℕ → Type 0
Spaced t k [] = Unit {0}
Spaced t k (d ∷ ds) = (t ≤ d) × Spaced (d + cooldown_for k) (suc k) ds

Spaced-mono : (s t k : ℕ) (ds : List ℕ) → s ≤ t → Spaced t k ds → Spaced s k ds
Spaced-mono s t k [] h sp = tt
Spaced-mono s t k (d ∷ ds) h sp = (omega arith, sp.1)

cooldown_for-le : (k : ℕ) → cooldown_for k ≤ ceiling
unfolding cooldown_for
cooldown_for-le k = ground arith

record_attempt_lem :
    (b : Backoff) (k now jitter : ℕ)
    → b.attempts ≡ min k u32_max
    → (now + cooldown_for k ≤ (record_attempt b now jitter).next_at)
      × ((record_attempt b now jitter).attempts ≡ min (suc k) u32_max)
unfolding record_attempt
record_attempt_lem b k now jitter h =
    let e : cooldown_for b.attempts ≡ cooldown_for k =
      ap cooldown_for h ∙ cooldown_for_saturated k in
    (omega (arith, e, cooldown_for-le k), omega arith)

dials-Spaced :
    (b : Backoff) (k : ℕ) (visits : List (ℕ × ℕ))
    → b.attempts ≡ min k u32_max
    → Spaced b.next_at k (dials (some b) visits)
unfolding dials should_dial
dials-Spaced b k [] h = tt
dials-Spaced b k ((now, jitter) ∷ later) h = elim (Bool-cases (leb b.next_at now)) [
  | inl yes_due ↦
      let (far, next) = record_attempt_lem b k now jitter h in
      rw yes_due (
        leb→le b.next_at now yes_due,
        Spaced-mono (now + cooldown_for k) (record_attempt b now jitter).next_at (suc k)
            (dials (some (record_attempt b now jitter)) later) far
            (dials-Spaced (record_attempt b now jitter) (suc k) later next),
      )
  | inr not_due ↦ rw not_due (dials-Spaced b k later h)
]

-- However often the ticker visits an offline peer, the dials since its entry was made are spaced:
-- the one behind dial number k comes no sooner than `cooldown_for k` after it.
pub reconnect_throttled :
    (now jitter : ℕ) (later : List (ℕ × ℕ)) → Spaced now 0 (dials none ((now, jitter) ∷ later))
unfolding dials should_dial
reconnect_throttled now jitter later =
    dials-Spaced (ready now) 0 ((now, jitter) ∷ later) (unfold ready in refl)
