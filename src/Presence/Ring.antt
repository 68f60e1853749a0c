-- ===== src/Presence/Ring.antt =====
-- The ring of transitions: its size, and the chain of each peer's transitions.
use y7ke.Prelude.{
  ℕ, ◌≤◌, ◌≡◌, refl, Bool, true, false, Option, none, some, List, [], ◌∷◌, ◌++◌, arith, length,
  last?, retain, ==_refl, Bool-cases, Option-cases, inl, inr,
}
use y7ke.Sql.{select}
use y7ke.Ident.{Y7Id}
use y7ke.Status.{ConnectionKind}
use y7ke.Presence.{
  TransportTransition, ConnectionMeta, trim, record_transition, transition_ring_size, about,
  last_to, same_kind, connection_kind_precedence,
}

length-trim : {A : Type 0} (n : ℕ) (xs : List A) → length (trim n xs) ≤ n
unfolding trim
length-trim n [] = ground arith
length-trim n (x ∷ xs) = ground (arith, length-trim n xs)

trim-short : {A : Type 0} (n : ℕ) (xs : List A) → length xs ≤ n → trim n xs ≡ xs
unfolding trim
trim-short n [] h = refl
trim-short n (x ∷ xs) h = ground (arith, h)

last-append : {A : Type 0} (xs : List A) (a : A) → last? (xs ++ a ∷ []) ≡ some a
last-append [] a = refl
last-append (x ∷ []) a = refl
last-append (x ∷ y ∷ xs) a = last-append (y ∷ xs) a

last-trim :
    {A : Type 0} (n : ℕ) (xs : List A) (a : A)
    → 1 ≤ n
    → last? xs ≡ some a
    → last? (trim n xs) ≡ some a
unfolding trim
last-trim n [] a k h = h
last-trim n (x ∷ []) a k h = ground (arith, k, h)
last-trim n (x ∷ y ∷ xs) a k h = ground (arith, k, h, last-trim n (y ∷ xs) a k h)

last-cons : {A : Type 0} (x : A) (xs : List A) (a : A) → last? xs ≡ some a → last? (x ∷ xs) ≡ some a
last-cons x [] a h = ground (arith, h)
last-cons x (y ∷ xs) a h = h

last-retain :
    {A : Type 0} (p : A → Bool) (xs : List A) (a : A)
    → last? xs ≡ some a
    → p a ≡ true
    → last? (retain p xs) ≡ some a
last-retain p [] a h k = h
last-retain p (x ∷ []) a h k = ground (arith, h, k)
last-retain p (x ∷ y ∷ xs) a h k =
    let rest = last-retain p (y ∷ xs) a h k in
    elim (Bool-cases (p x)) [
      | inl e ↦ rw e (last-cons x (retain p (y ∷ xs)) a rest)
      | inr e ↦ rw e rest
    ]

abbrev pub reported : ConnectionKind → Option TransportTransition → Bool
reported to none = false
reported to (some t) = same_kind t.to to

-- A report leaves the ring within its 48 transitions, and the newest transition of the peer in it is
-- to the kind that was reported, whether it was recorded now or before.
record_transition-reported :
    (ring : List TransportTransition) (y7 : Y7Id) (to : ConnectionKind) (meta : ConnectionMeta)
    (now : ℕ)
    → length ring ≤ transition_ring_size
    → (length (record_transition ring y7 to meta now) ≤ transition_ring_size)
      × (reported to (last? (select (about y7) (record_transition ring y7 to meta now))) ≡ true)
unfolding record_transition
record_transition-reported ring y7 to meta now h = elim (Option-cases previous) [
  | inl p ↦ (
    ground (arith, p, bounded),
    ground (arith, p, newest, ==_refl (connection_kind_precedence to)),
  )
  | inr (t, p) ↦ (
    ground (arith, p, h, bounded),
    ground (arith, p, newest, ==_refl (connection_kind_precedence to)),
  )
]
  where
    previous : Option TransportTransition
    previous = last? (retain (about y7) ring)

    new : TransportTransition
    new = record {
      y7_id = y7;
      from = last_to previous;
      to = to;
      transport = meta.transport;
      ip_version = meta.ip_version;
      origin = meta.origin;
      at_ms = now;
    }

    bounded : length (trim transition_ring_size (ring ++ new ∷ [])) ≤ transition_ring_size
    bounded = length-trim transition_ring_size (ring ++ new ∷ [])

    newest : last? (retain (about y7) (trim transition_ring_size (ring ++ new ∷ []))) ≡ some new
    newest =
        last-retain (about y7) _ new
          (last-trim transition_ring_size (ring ++ new ∷ []) new (ground arith)
            (last-append ring new))
          (==_refl y7)
