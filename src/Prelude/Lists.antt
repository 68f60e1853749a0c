-- ===== src/Prelude/Lists.antt =====
-- Lists measured by native numbers, filtered by Bool tests, and membership by recursion.
use Prim.Native.Nat.{ℕ, zero, suc, ◌+◌, ◌≤◌, min}
use mathlib.Core.Path.{◌≡◌, refl, ap, sym, subst}
use mathlib.Core.Logic.{◌⊎◌, inl, inr}
use mathlib.Core.Bool.{Bool, true, false, ◌||◌}
use mathlib.Core.Option.{Option, none, some}
use mathlib.Core.List.{List, [], ◌∷◌, ◌++◌}
use native.Mathlib.Omega.{arith}
use y7ke.Prelude.Tests.{if◌then◌else◌}

module _ {ℓ} {A : Type ℓ} where
  abbrev pub length : List A → ℕ
  length [] = 0
  length (x ∷ xs) = suc (length xs)

  abbrev pub take : ℕ → List A → List A
  take zero xs = []
  take (suc n) [] = []
  take (suc n) (x ∷ xs) = x ∷ take n xs

  abbrev pub drop : ℕ → List A → List A
  drop zero xs = xs
  drop (suc n) [] = []
  drop (suc n) (x ∷ xs) = drop n xs

  -- `Vec::retain` and `Iterator::filter`: one structural call.
  abbrev pub retain : (A → Bool) → List A → List A
  retain p [] = []
  retain p (x ∷ xs) = let rest = retain p xs in if p x then x ∷ rest else rest

  abbrev pub any : (A → Bool) → List A → Bool
  any p [] = false
  any p (x ∷ xs) = p x || any p xs

  abbrev pub find : (A → Bool) → List A → Option A
  find p [] = none
  find p (x ∷ xs) = if p x then some x else find p xs

  abbrev pub last? : List A → Option A
  last? [] = none
  last? (x ∷ []) = some x
  last? (x ∷ y ∷ ys) = last? (y ∷ ys)

  abbrev pub All {κ} : (A → Type κ) → List A → Type κ
  All P [] = Unit
  All P (x ∷ xs) = P x × All P xs

module _ {A : Type 0} where
  abbrev pub In : A → List A → Type 0
  In a [] = ⊥
  In a (x ∷ xs) = (a ≡ x) ⊎ In a xs

  pub In-of_All {κ} : (P : A → Type κ) (a : A) (xs : List A) → All P xs → In a xs → P a
  In-of_All P a [] h m = absurd m
  In-of_All P a (x ∷ xs) h (inl e) = subst P (sym e) h.0
  In-of_All P a (x ∷ xs) h (inr m) = In-of_All P a xs h.1 m

  pub All-of_In {κ} : (P : A → Type κ) (xs : List A) → ((a : A) → In a xs → P a) → All P xs
  All-of_In P [] h = tt
  All-of_In P (x ∷ xs) h = (h x (inl refl), All-of_In P xs (λ a m. h a (inr m)))

  pub In-append_left : (a : A) (xs ys : List A) → In a xs → In a (xs ++ ys)
  In-append_left a [] ys m = absurd m
  In-append_left a (x ∷ xs) ys (inl e) = inl e
  In-append_left a (x ∷ xs) ys (inr m) = inr (In-append_left a xs ys m)

  pub In-append_right : (a : A) (xs ys : List A) → In a ys → In a (xs ++ ys)
  In-append_right a [] ys m = m
  In-append_right a (x ∷ xs) ys m = inr (In-append_right a xs ys m)

  pub In-take : (n : ℕ) (a : A) (xs : List A) → In a (take n xs) → In a xs
  In-take zero a xs m = absurd m
  In-take (suc n) a [] m = absurd m
  In-take (suc n) a (x ∷ xs) (inl e) = inl e
  In-take (suc n) a (x ∷ xs) (inr m) = inr (In-take n a xs m)

  pub In-drop : (n : ℕ) (a : A) (xs : List A) → In a (drop n xs) → In a xs
  In-drop zero a xs m = m
  In-drop (suc n) a [] m = absurd m
  In-drop (suc n) a (x ∷ xs) m = inr (In-drop n a xs m)

  pub In-take_or_drop :
      (n : ℕ) (a : A) (xs : List A) → In a xs → In a (take n xs) ⊎ In a (drop n xs)
  In-take_or_drop zero a xs m = inr m
  In-take_or_drop (suc n) a [] m = absurd m
  In-take_or_drop (suc n) a (x ∷ xs) (inl e) = inl (inl e)
  In-take_or_drop (suc n) a (x ∷ xs) (inr m) = elim (In-take_or_drop n a xs m) [
    | inl t ↦ inl (inr t)
    | inr d ↦ inr d
  ]

  -- Where something is left over, the page is full.
  pub length-take_full : (n : ℕ) (a : A) (xs : List A) → In a (drop n xs) → length (take n xs) ≡ n
  length-take_full zero a xs m = refl
  length-take_full (suc n) a [] m = absurd m
  length-take_full (suc n) a (x ∷ xs) m = ap suc (length-take_full n a xs m)

module _ {ℓ} {A : Type ℓ} where
  pub length-append : (xs ys : List A) → length (xs ++ ys) ≡ length xs + length ys
  length-append [] ys = omega arith
  length-append (x ∷ xs) ys = omega (arith, length-append xs ys)

  pub length-retain-le : (p : A → Bool) (xs : List A) → length (retain p xs) ≤ length xs
  length-retain-le p [] = omega arith
  length-retain-le p (x ∷ xs) = ground (arith, length-retain-le p xs)

  pub length-take : (n : ℕ) (xs : List A) → length (take n xs) ≡ min n (length xs)
  length-take zero xs = omega arith
  length-take (suc n) [] = omega arith
  length-take (suc n) (x ∷ xs) = omega (arith, length-take n xs)

module _ {A : Type 0} where
  pub In-retain : (p : A → Bool) (a : A) (xs : List A) → In a (retain p xs) → (p a ≡ true) × In a xs
  In-retain p a [] h = absurd h
  In-retain p a (x ∷ xs) h = ground (arith, In-retain p a xs)

  pub In-snoc : (a x : A) (xs : List A) → In a (xs ++ x ∷ []) → In a xs ⊎ (a ≡ x)
  In-snoc a x [] (inl e) = inr e
  In-snoc a x [] (inr m) = absurd m
  In-snoc a x (y ∷ ys) (inl e) = inl (inl e)
  In-snoc a x (y ∷ ys) (inr m) = ground (arith, In-snoc a x ys m)
