-- ===== src/Sql/Rows.antt =====
-- What the statements leave in a table.
use y7ke.Prelude.{
  ◌≡◌, refl, ◌↔◌, inl, inr, Bool, true, false, none, some, List, [], ◌∷◌, ◌++◌, arith,
  if◌then◌else◌, retain, any, find, In, is_some, Option-cases, Bool-cases, In-snoc, ◌⊎◌,
}
use y7ke.Sql.{update_where, delete_where, upsert}
use mathlib.Core.Option

module _ {A : Type 0} where
  pub In-retain :
      (p : A → Bool) (a : A) (xs : List A) → In a (retain p xs) ↔ (In a xs × (p a ≡ true))
  In-retain p a [] = ground arith
  In-retain p a (x ∷ xs) = ground (arith, In-retain p a xs)

  pub In-delete_where :
      (p : A → Bool) (a : A) (xs : List A) → In a (delete_where p xs) ↔ (In a xs × (p a ≡ false))
  unfolding delete_where
  In-delete_where p a [] = ground arith
  In-delete_where p a (x ∷ xs) = ground (arith, In-delete_where p a xs)

  pub find-some : (q : A → Bool) (xs : List A) (a : A) → find q xs ≡ some a → In a xs × (q a ≡ true)
  find-some q [] a h = ground arith
  find-some q (x ∷ xs) a h = ground (arith, find-some q xs a)

  pub find-none : (q : A → Bool) (xs : List A) (a : A) → find q xs ≡ none → In a xs → q a ≡ false
  find-none q [] a h m = absurd m
  find-none q (x ∷ xs) a h m = ground (arith, find-none q xs a)

  pub any-find : (q : A → Bool) (xs : List A) → any q xs ≡ is_some (find q xs)
  any-find q [] = refl
  any-find q (x ∷ xs) = ground (arith, any-find q xs)

  -- A query by a test that the update keeps sees each row updated.
  pub find-update_where :
      (q p : A → Bool) (f : A → A) (xs : List A)
      → ((a : A) → q (f a) ≡ q a)
      → find q (update_where p f xs) ≡ Option.map (λ a. if p a then f a else a) (find q xs)
  unfolding update_where
  find-update_where q p f [] h = refl
  find-update_where q p f (x ∷ xs) h = ground (arith, h x, find-update_where q p f xs h)

  pub find-append :
      (q : A → Bool) (xs ys : List A)
      → find q (xs ++ ys) ≡ (elim (find q xs) [ none ↦ find q ys | some a ↦ some a ])
  find-append q [] ys = refl
  find-append q (x ∷ xs) ys = ground (arith, find-append q xs ys)

  pub find-delete_where_self : (p : A → Bool) (xs : List A) → find p (delete_where p xs) ≡ none
  unfolding delete_where
  find-delete_where_self p [] = refl
  find-delete_where_self p (x ∷ xs) = ground (arith, find-delete_where_self p xs)

  pub find-delete_where_ne :
      (q p : A → Bool) (xs : List A)
      → ((a : A) → q a ≡ true → p a ≡ false)
      → find q (delete_where p xs) ≡ find q xs
  unfolding delete_where
  find-delete_where_ne q p [] h = refl
  find-delete_where_ne q p (x ∷ xs) h = ground (arith, h x, find-delete_where_ne q p xs h)

  find-map-some :
      (p : A → Bool) (f : A → A) (xs : List A) (a : A)
      → find p xs ≡ some a
      → Option.map (λ b. if p b then f b else b) (find p xs) ≡ some (f a)
  find-map-some p f xs a h = rw (h, Option.map) (ground (arith, find-some p xs a h))

  -- After an upsert the key's row is the new one, or the old one updated.
  pub find-upsert_self :
      (p : A → Bool) (new : A) (f : A → A) (xs : List A)
      → p new ≡ true
      → ((a : A) → p (f a) ≡ p a)
      → find p (upsert p new f xs) ≡ (elim (find p xs) [ none ↦ some new | some a ↦ some (f a) ])
  unfolding upsert
  find-upsert_self p new f xs hn hf = elim (Option-cases (find p xs)) [
    | inl e ↦ ground (arith, e, any-find p xs, find-append p xs (new ∷ []))
    | inr (a, e) ↦
        ground (arith, any-find p xs, find-update_where p p f xs hf, find-map-some p f xs a e)
  ]

  -- A query for another key sees the table as it was.
  pub find-upsert_ne :
      (q p : A → Bool) (new : A) (f : A → A) (xs : List A)
      → q new ≡ false
      → ((a : A) → q (f a) ≡ q a)
      → ((a : A) → q a ≡ true → p a ≡ false)
      → find q (upsert p new f xs) ≡ find q xs
  unfolding upsert
  find-upsert_ne q p new f xs hn hf apart = elim (Option-cases (find q xs)) [
    | inl e ↦ ground (arith, find-append q xs (new ∷ []), find-update_where q p f xs hf)
    | inr (a, e) ↦ ground (
      arith,
      apart a,
      find-some q xs a e,
      find-append q xs (new ∷ []),
      find-update_where q p f xs hf,
    )
  ]

  pub In-update_where :
      (p : A → Bool) (f : A → A) (y : A) (xs : List A)
      → In y (update_where p f xs)
      → (x : A) × In x xs × (y ≡ (if p x then f x else x))
  unfolding update_where
  In-update_where p f y [] h = absurd h
  In-update_where p f y (x ∷ xs) (inl e) = (x, inl refl, e)
  In-update_where p f y (x ∷ xs) (inr m) =
      let (z, i, e) = In-update_where p f y xs m in (z, inr i, e)

  any-false : (p : A → Bool) (xs : List A) (y : A) → any p xs ≡ false → In y xs → p y ≡ false
  any-false p [] y e m = absurd m
  any-false p (x ∷ xs) y e m = ground (arith, any-false p xs y)

  -- A row after an upsert is the new one, or comes from a row before it.
  pub In-upsert :
      (p : A → Bool) (new : A) (f : A → A) (y : A) (xs : List A)
      → In y (upsert p new f xs)
      → (y ≡ new) ⊎ ((x : A) × In x xs × (y ≡ (if p x then f x else x)))
  unfolding upsert
  In-upsert p new f y xs h = elim (Bool-cases (any p xs)) [
    | inl e ↦ inr (In-update_where p f y xs (rw e at h))
    | inr e ↦ elim (In-snoc y new xs (rw e at h)) [
      | inl m ↦ inr (y, m, rw (any-false p xs y e m) refl)
      | inr q ↦ inl q
    ]
  ]
