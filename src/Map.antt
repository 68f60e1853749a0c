-- ===== src/Map.antt =====
-- A `HashMap` keyed by identities, as an association list: the source asks for one key at a time,
-- so the order of the entries is never observed except through `values`.
use y7ke.Prelude.{
  true, ==_iff, is_none, ◌+◌, ℕ, ◌≡◌, refl, Option, none, some, List, [], ◌∷◌, arith, ◌==◌,
  if◌then◌else◌, All, Bool-cases, inl, inr,
}

abbrev pub Map {ℓ} : Type ℓ → Type ℓ
Map V = List (ℕ × V)

module _ {ℓ} {V : Type ℓ} where
  unfoldable pub get : ℕ → Map V → Option V
  get k [] = none
  get k ((j, v) ∷ m) = if j == k then some v else get k m

  unfoldable pub put : ℕ → V → Map V → Map V
  put k v [] = (k, v) ∷ []
  put k v ((j, w) ∷ m) = if j == k then (k, v) ∷ m else (j, w) ∷ put k v m

  -- Every entry of the key goes: a map holds one at most.
  unfoldable pub remove : ℕ → Map V → Map V
  remove k [] = []
  remove k ((j, v) ∷ m) = let rest = remove k m in if j == k then rest else (j, v) ∷ rest

  abbrev pub values : Map V → List V
  values [] = []
  values ((j, v) ∷ m) = v ∷ values m

  abbrev pub keys : Map V → List ℕ
  keys [] = []
  keys ((j, v) ∷ m) = j ∷ keys m

  pub get-put :
      (k j : ℕ) (v : V) (m : Map V) → get j (put k v m) ≡ (if k == j then some v else get j m)
  unfolding get put
  get-put k j v [] = refl
  get-put k j v ((i, w) ∷ m) = ground (arith, get-put k j v m)

  pub get-remove : (k j : ℕ) (m : Map V) → get j (remove k m) ≡ (if k == j then none else get j m)
  unfolding get remove
  get-remove k j [] = ground arith
  get-remove k j ((i, w) ∷ m) = ground (arith, get-remove k j m)

  pub All-put :
      (P : V → Type 0) (k : ℕ) (v : V) (m : Map V)
      → All P (values m)
      → P v
      → All P (values (put k v m))
  unfolding put
  All-put P k v [] h hv = (hv, tt)
  All-put P k v ((j, w) ∷ m) h hv = elim (Bool-cases (j == k)) [
    | inl e ↦ rw e (hv, h.1)
    | inr e ↦ rw e (h.0, All-put P k v m h.1 hv)
  ]

  pub All-remove :
      (P : V → Type 0) (k : ℕ) (m : Map V) → All P (values m) → All P (values (remove k m))
  unfolding remove
  All-remove P k [] h = h
  All-remove P k ((j, w) ∷ m) h = elim (Bool-cases (j == k)) [
    | inl e ↦ rw e (All-remove P k m h.1)
    | inr e ↦ rw e (h.0, All-remove P k m h.1)
  ]

  -- Each key has one entry.
  abbrev pub IsKeyed : Map V → Type 0
  IsKeyed [] = Unit
  IsKeyed ((k, v) ∷ m) = (is_none (get k m) ≡ true) × IsKeyed m

  pub put-IsKeyed : (k : ℕ) (v : V) (m : Map V) → IsKeyed m → IsKeyed (put k v m)
  unfolding get put
  put-IsKeyed k v [] h = (refl, tt)
  put-IsKeyed k v ((j, w) ∷ m) h = ground (arith, put-IsKeyed k v m, get-put k j v m)

  pub remove-IsKeyed : (k : ℕ) (m : Map V) → IsKeyed m → IsKeyed (remove k m)
  unfolding remove
  remove-IsKeyed k [] h = h
  remove-IsKeyed k ((j, w) ∷ m) h = ground (arith, remove-IsKeyed k m, get-remove k j m)

  -- The sum of what the values weigh.
  abbrev pub weigh : (V → ℕ) → Map V → ℕ
  weigh f [] = 0
  weigh f ((k, v) ∷ m) = f v + weigh f m

  abbrev pub weigh_one : (V → ℕ) → Option V → ℕ
  weigh_one f none = 0
  weigh_one f (some v) = f v

  pub weigh-put :
      (f : V → ℕ) (k : ℕ) (v : V) (m : Map V)
      → weigh f (put k v m) + weigh_one f (get k m) ≡ weigh f m + f v
  unfolding get put
  weigh-put f k v [] = omega arith
  weigh-put f k v ((j, w) ∷ m) = ground (arith, weigh-put f k v m)

  pub weigh-put_fresh :
      (f : V → ℕ) (k : ℕ) (v : V) (m : Map V)
      → is_none (get k m) ≡ true
      → weigh f (put k v m) ≡ weigh f m + f v
  weigh-put_fresh f k v m h = ground (arith, weigh-put f k v m)

  remove-absent : (k : ℕ) (m : Map V) → is_none (get k m) ≡ true → remove k m ≡ m
  unfolding get remove
  remove-absent k [] h = refl
  remove-absent k ((j, w) ∷ m) h = ground (arith, remove-absent k m)

  pub weigh-remove :
      (f : V → ℕ) (k : ℕ) (m : Map V)
      → IsKeyed m
      → weigh f (remove k m) + weigh_one f (get k m) ≡ weigh f m
  unfolding get remove
  weigh-remove f k [] h = omega arith
  weigh-remove f k ((j, w) ∷ m) h = elim (Bool-cases (j == k)) [
    | inl e ↦
        let same : j ≡ k = (==_iff j k).0 e in
        let gone = remove-absent k m (rw (← same) h.0) in rw e (rw gone (omega arith))
    | inr e ↦ rw e (omega (arith, weigh-remove f k m h.1))
  ]

pub ruleset map_laws = (get-put, get-remove)
