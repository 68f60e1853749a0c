-- ===== src/RateLimit/Window.antt =====
-- The bucket against its history: what it admits, over every window of time.
use y7ke.Prelude.{
  ℕ, ◌+◌, ◌-◌, ◌≤◌, ◌≡◌, refl, Bool, true, false, ◌&&◌, List, [], ◌∷◌, ◌++◌, arith, leb, ltb,
  if◌then◌else◌, length, retain, All, Bool-cases, inl, inr,
}
use y7ke.RateLimit.{BucketLimit, Bucket, empty_bucket, try_consume}

-- How many of the times lie in [lo, hi].
abbrev pub count_in : ℕ → ℕ → List ℕ → ℕ
count_in lo hi ts = length (retain (λ t. leb lo t && leb t hi) ts)

-- The times admitted in a run of calls, oldest first, behind those admitted before.
unfoldable pub admitted : BucketLimit → Bucket → List ℕ → List ℕ → Bucket × List ℕ
admitted limit b past [] = (b, past)
admitted limit b past (now ∷ later) =
    let (b', ok) = try_consume b limit now in
    admitted limit b' (if ok then past ++ now ∷ [] else past) later

-- The calls come in the order of the clock.
abbrev pub Ordered : ℕ → List ℕ → Type 0
Ordered lo [] = Unit {0}
Ordered lo (t ∷ ts) = (lo ≤ t) × Ordered t ts

retain-append : (p : ℕ → Bool) (xs ys : List ℕ) → retain p (xs ++ ys) ≡ retain p xs ++ retain p ys
retain-append p [] ys = refl
retain-append p (x ∷ xs) ys = ground (arith, retain-append p xs ys)

-- A later cutoff keeps the same of what an earlier one kept.
retain-retain_ge :
    (a b : ℕ) (xs : List ℕ)
    → a ≤ b
    → retain (λ t. leb b t) (retain (λ t. leb a t) xs) ≡ retain (λ t. leb b t) xs
retain-retain_ge a b [] h = refl
retain-retain_ge a b (x ∷ xs) h = ground (arith, retain-retain_ge a b xs h)

-- The bucket holds just the admitted times that the last call's window covered.
pub record Tracks (limit : BucketLimit) (lo : ℕ) (b : Bucket) (past : List ℕ) : Type 0 where
  pub recent : b.events ≡ retain (λ t. leb (lo - limit.window) t) past
  pub before : All (λ t. t ≤ lo) past
  pub bounded : (a : ℕ) → count_in a (a + limit.window) past ≤ limit.max_events

All-le_mono : (lo now : ℕ) (xs : List ℕ) → lo ≤ now → All (λ t. t ≤ lo) xs → All (λ t. t ≤ now) xs
All-le_mono lo now [] h a = tt
All-le_mono lo now (x ∷ xs) h a = (omega arith, All-le_mono lo now xs h a.1)

All-le-snoc :
    (lo now : ℕ) (xs : List ℕ)
    → lo ≤ now
    → All (λ t. t ≤ lo) xs
    → All (λ t. t ≤ now) (xs ++ now ∷ [])
All-le-snoc lo now [] h a = (omega arith, tt)
All-le-snoc lo now (x ∷ xs) h a = (omega arith, All-le-snoc lo now xs h a.1)

count_in-le :
    (c a hi : ℕ) (xs : List ℕ) → c ≤ a → count_in a hi xs ≤ length (retain (λ t. leb c t) xs)
count_in-le c a hi [] h = omega arith
count_in-le c a hi (x ∷ xs) h = ground (arith, count_in-le c a hi xs h)

count_in-snoc :
    (a hi now : ℕ) (xs : List ℕ)
    → count_in a hi (xs ++ now ∷ []) ≡ count_in a hi xs + (if leb a now && leb now hi then 1 else 0)
count_in-snoc a hi now [] = ground arith
count_in-snoc a hi now (x ∷ xs) = ground (arith, count_in-snoc a hi now xs)

-- Behind a bound on all the times, the upper end of a window tests nothing.
count_in-before :
    (c now : ℕ) (xs : List ℕ)
    → All (λ t. t ≤ now) xs
    → count_in c now xs ≡ length (retain (λ t. leb c t) xs)
count_in-before c now [] h = refl
count_in-before c now (x ∷ xs) h = ground (arith, count_in-before c now xs h.1)

module _ (limit : BucketLimit) (lo now : ℕ) (b : Bucket) (past : List ℕ) (h : lo ≤ now) where
  pruned_lem :
      Tracks limit lo b past
      → retain (λ t. leb (now - limit.window) t) b.events
        ≡ retain (λ t. leb (now - limit.window) t) past
  pruned_lem v =
      rw v.recent (retain-retain_ge (lo - limit.window) (now - limit.window) past (omega arith))

  -- What the history says of a call: fewer than `max_events` admitted ones in its window.
  pub try_consume-eq :
      Tracks limit lo b past
      → (try_consume b limit now).1 ≡ ltb (count_in (now - limit.window) now past) limit.max_events
  unfolding try_consume
  try_consume-eq v = ground (
    arith,
    pruned_lem v,
    count_in-before (now - limit.window) now past (All-le_mono lo now past h v.before),
  )

  bounded_refused :
      Tracks limit lo b past
      → (try_consume b limit now).1 ≡ false
      → Tracks limit now (try_consume b limit now).0 past
  unfolding try_consume
  bounded_refused v e = record {
    recent = ground (arith, pruned_lem v);
    before = All-le_mono lo now past h v.before;
    bounded = v.bounded;
  }

  bounded_admitted :
      Tracks limit lo b past
      → (try_consume b limit now).1 ≡ true
      → Tracks limit now (try_consume b limit now).0 (past ++ now ∷ [])
  unfolding try_consume
  bounded_admitted v e = record {
    recent =
        ground
          (arith, pruned_lem v, retain-append (λ t. leb (now - limit.window) t) past (now ∷ []));
    before = All-le-snoc lo now past h v.before;
    bounded = λ a. ground (
      arith,
      v.bounded a,
      pruned_lem v,
      count_in-snoc a (a + limit.window) now past,
      count_in-le (now - limit.window) a (a + limit.window) past,
    );
  }

-- The specification: a call is admitted when fewer than `max_events` admitted calls lie in its
-- window. It keeps the whole history.
unfoldable pub spec_admitted : BucketLimit → List ℕ → List ℕ → List ℕ
spec_admitted limit past [] = past
spec_admitted limit past (now ∷ later) =
    spec_admitted limit
      (if ltb (count_in (now - limit.window) now past) limit.max_events
        then past ++ now ∷ []
        else past)
      later

admitted-Tracks :
    (limit : BucketLimit) (lo : ℕ) (b : Bucket) (past times : List ℕ)
    → Ordered lo times
    → Tracks limit lo b past
    → ((admitted limit b past times).1 ≡ spec_admitted limit past times)
      × ((a : ℕ) → count_in a (a + limit.window) (admitted limit b past times).1 ≤ limit.max_events)
unfolding admitted spec_admitted
admitted-Tracks limit lo b past [] o v = (refl, v.bounded)
admitted-Tracks limit lo b past (now ∷ later) o v = elim (Bool-cases (try_consume b limit now).1) [
  | inl e ↦
      rw (← try_consume-eq limit lo now b past o.0 v, e, admitted)
        (admitted-Tracks limit now (try_consume b limit now).0 (past ++ now ∷ []) later o.1
          (bounded_admitted limit lo now b past o.0 v e))
  | inr e ↦
      rw (← try_consume-eq limit lo now b past o.0 v, e, admitted)
        (admitted-Tracks limit now (try_consume b limit now).0 past later o.1
          (bounded_refused limit lo now b past o.0 v e))
]

start-Tracks : (limit : BucketLimit) → Tracks limit 0 empty_bucket []
start-Tracks limit = record { recent = refl; before = tt; bounded = λ a. omega arith }

-- For calls in the order of the clock, a bucket that starts empty admits just the calls that the
-- specification admits, which counts the admitted calls of the trailing window in the whole history.
pub admitted-eq-spec :
    (limit : BucketLimit) (times : List ℕ)
    → Ordered 0 times
    → (admitted limit empty_bucket [] times).1 ≡ spec_admitted limit [] times
admitted-eq-spec limit times o =
    (admitted-Tracks limit 0 empty_bucket [] times o (start-Tracks limit)).0

-- For calls in the order of the clock, no window of the limit's length, wherever it starts, holds
-- more than `max_events` admitted calls of a bucket that starts empty.
admitted_bounded :
    (limit : BucketLimit) (times : List ℕ) (a : ℕ)
    → Ordered 0 times
    → count_in a (a + limit.window) (admitted limit empty_bucket [] times).1 ≤ limit.max_events
admitted_bounded limit times a o =
    (admitted-Tracks limit 0 empty_bucket [] times o (start-Tracks limit)).1 a
