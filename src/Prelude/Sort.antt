-- ===== src/Prelude/Sort.antt =====
-- A stable sort by a number: the order of a query's rows, and of `sort_by_key`.
use Prim.Native.Nat.{ℕ, zero, suc, ◌+◌, ◌≤◌}
use mathlib.Core.Path.{◌≡◌, refl}
use mathlib.Core.Logic.{◌↔◌, ◌⊎◌, inl, inr}
use mathlib.Core.Bool.{Bool}
use mathlib.Core.List.{List, [], ◌∷◌}
use mathlib.Core.Option.{none, some}
use native.Mathlib.Omega.{arith}
use y7ke.Prelude.Tests.{leb, if◌then◌else◌}
use y7ke.Prelude.Lists.{In, All, any, length, last?, take, drop, In-of_All, In-drop}

module _ {A : Type 0} (key : A → ℕ) where
  abbrev pub insert_by : A → List A → List A
  insert_by x [] = x ∷ []
  insert_by x (y ∷ ys) = if leb (key x) (key y) then x ∷ y ∷ ys else y ∷ insert_by x ys

  unfoldable pub sort_by : List A → List A
  sort_by [] = []
  sort_by (x ∷ xs) = insert_by x (sort_by xs)

  abbrev pub IsSorted : List A → Type 0
  IsSorted [] = Unit
  IsSorted (x ∷ xs) = All (λ y. key x ≤ key y) xs × IsSorted xs

  length-insert_by : (x : A) (xs : List A) → length (insert_by x xs) ≡ length xs + 1
  length-insert_by x [] = refl
  length-insert_by x (y ∷ ys) = ground (arith, length-insert_by x ys)

  pub length-sort_by : (xs : List A) → length (sort_by xs) ≡ length xs
  unfolding sort_by
  length-sort_by [] = refl
  length-sort_by (x ∷ xs) = ground (arith, length-insert_by x (sort_by xs), length-sort_by xs)

  any-insert_by : (p : A → Bool) (x : A) (xs : List A) → any p (insert_by x xs) ≡ any p (x ∷ xs)
  any-insert_by p x [] = refl
  any-insert_by p x (y ∷ ys) = ground (arith, any-insert_by p x ys)

  pub any-sort_by : (p : A → Bool) (xs : List A) → any p (sort_by xs) ≡ any p xs
  unfolding sort_by
  any-sort_by p [] = refl
  any-sort_by p (x ∷ xs) = ground (arith, any-insert_by p x (sort_by xs), any-sort_by p xs)

  In-insert_by : (a x : A) (ys : List A) → In a (insert_by x ys) ↔ ((a ≡ x) ⊎ In a ys)
  In-insert_by a x [] = ground arith
  In-insert_by a x (y ∷ ys) = ground (arith, In-insert_by a x ys)

  pub In-sort_by : (a : A) (xs : List A) → In a (sort_by xs) ↔ In a xs
  unfolding sort_by
  In-sort_by a [] = ground arith
  In-sort_by a (x ∷ xs) = ground (arith, In-sort_by a xs, In-insert_by a x (sort_by xs))

  All-insert_by :
      (n : ℕ) (x : A) (ys : List A)
      → n ≤ key x
      → All (λ y. n ≤ key y) ys
      → All (λ y. n ≤ key y) (insert_by x ys)
  All-insert_by n x [] h a = (h, tt)
  All-insert_by n x (y ∷ ys) h a = ground (arith, All-insert_by n x ys h a.1)

  All-key_mono : (m n : ℕ) (ys : List A) → m ≤ n → All (λ y. n ≤ key y) ys → All (λ y. m ≤ key y) ys
  All-key_mono m n [] h a = tt
  All-key_mono m n (y ∷ ys) h a = (omega arith, All-key_mono m n ys h a.1)

  insert_by-IsSorted : (x : A) (ys : List A) → IsSorted ys → IsSorted (insert_by x ys)
  insert_by-IsSorted x [] s = (tt, tt)
  insert_by-IsSorted x (y ∷ ys) s = ground (
    arith,
    insert_by-IsSorted x ys s.1,
    All-insert_by (key y) x ys,
    All-key_mono (key x) (key y) ys,
  )

  pub sort_by-IsSorted : (xs : List A) → IsSorted (sort_by xs)
  unfolding sort_by
  sort_by-IsSorted [] = tt
  sort_by-IsSorted (x ∷ xs) = insert_by-IsSorted x (sort_by xs) (sort_by-IsSorted xs)

  -- The last row of an ascending order is the first of the descending one.
  pub last?-IsSorted :
      (xs : List A) (z a : A) → IsSorted xs → last? xs ≡ some z → In a xs → key a ≤ key z
  last?-IsSorted [] z a s e m = absurd m
  last?-IsSorted (x ∷ []) z a s e m = ground arith
  last?-IsSorted (x ∷ y ∷ ys) z a s e (inl m) =
      ground (arith, last?-IsSorted (y ∷ ys) z y s.1 e (inl refl))
  last?-IsSorted (x ∷ y ∷ ys) z a s e (inr m) = last?-IsSorted (y ∷ ys) z a s.1 e m

  pub last?-In : (xs : List A) (z : A) → last? xs ≡ some z → In z xs
  last?-In [] z e = ground arith
  last?-In (x ∷ []) z e = ground arith
  last?-In (x ∷ y ∷ ys) z e = inr (last?-In (y ∷ ys) z e)

  pub last?-none : (xs : List A) → last? xs ≡ none → xs ≡ []
  last?-none [] e = refl
  last?-none (x ∷ []) e = ground arith
  last?-none (x ∷ y ∷ ys) e = ground (arith, last?-none (y ∷ ys) e)

  -- A page from the front of a sorted list holds no key above one that it leaves out.
  pub take-IsSorted :
      (n : ℕ) (xs : List A) (a b : A)
      → IsSorted xs
      → In a (take n xs)
      → In b (drop n xs)
      → key a ≤ key b
  take-IsSorted zero xs a b s m m' = absurd m
  take-IsSorted (suc n) [] a b s m m' = absurd m
  take-IsSorted (suc n) (x ∷ xs) a b s (inl e) m' =
      rw e (In-of_All (λ y. key x ≤ key y) b xs s.0 (In-drop n b xs m'))
  take-IsSorted (suc n) (x ∷ xs) a b s (inr m) m' = take-IsSorted n xs a b s.1 m m'
