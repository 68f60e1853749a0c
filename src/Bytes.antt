-- ===== src/Bytes.antt =====
-- Byte strings, and the bytes of a number in both orders.
use native.Mathlib.Nat.{pow-suc}
use y7ke.Prelude.{
  ℕ, zero, suc, ◌+◌, ◌*◌, ◌/◌, ◌%◌, ◌^◌, ◌<◌, ◌≡◌, refl, sym, ap, ◌∙◌, List, [], ◌∷◌, ◌++◌, arith,
  length, length-append,
}

abbrev pub Bytes : Type 0
Bytes = List ℕ

unfoldable pub to_be_bytes : ℕ → ℕ → Bytes
to_be_bytes zero n = []
to_be_bytes (suc w) n = to_be_bytes w (n / 256) ++ (n % 256) ∷ []

unfoldable pub to_le_bytes : ℕ → ℕ → Bytes
to_le_bytes zero n = []
to_le_bytes (suc w) n = (n % 256) ∷ to_le_bytes w (n / 256)

unfoldable pub be_from : ℕ → Bytes → ℕ
be_from acc [] = acc
be_from acc (b ∷ bs) = be_from (acc * 256 + b) bs

unfoldable pub from_be_bytes : Bytes → ℕ
unfolding be_from
from_be_bytes bs = be_from 0 bs

be_from-snoc :
    (acc : ℕ) (xs : Bytes) (b : ℕ) → be_from acc (xs ++ b ∷ []) ≡ be_from acc xs * 256 + b
unfolding be_from
be_from-snoc acc [] b = refl
be_from-snoc acc (x ∷ xs) b = be_from-snoc (acc * 256 + x) xs b

pub length-to_be_bytes : (w n : ℕ) → length (to_be_bytes w n) ≡ w
unfolding to_be_bytes
length-to_be_bytes zero n = refl
length-to_be_bytes (suc w) n = omega (
  arith,
  length-append (to_be_bytes w (n / 256)) ((n % 256) ∷ []),
  length-to_be_bytes w (n / 256),
)

pub length-to_le_bytes : (w n : ℕ) → length (to_le_bytes w n) ≡ w
unfolding to_le_bytes
length-to_le_bytes zero n = refl
length-to_le_bytes (suc w) n = ap suc (length-to_le_bytes w (n / 256))

pub from_be_bytes-to_be_bytes : (w n : ℕ) → n < 256 ^ w → from_be_bytes (to_be_bytes w n) ≡ n
unfolding from_be_bytes to_be_bytes
from_be_bytes-to_be_bytes zero n h = omega arith
from_be_bytes-to_be_bytes (suc w) n h = omega (
  arith,
  be_from-snoc 0 (to_be_bytes w (n / 256)) (n % 256),
  from_be_bytes-to_be_bytes w (n / 256) (omega (arith, pow-suc 256 w)),
)

le_value : Bytes → ℕ
le_value [] = 0
le_value (b ∷ bs) = b + 256 * le_value bs

le_value-to_le_bytes : (w n : ℕ) → n < 256 ^ w → le_value (to_le_bytes w n) ≡ n
unfolding le_value to_le_bytes
le_value-to_le_bytes zero n h = omega arith
le_value-to_le_bytes (suc w) n h =
    omega (arith, le_value-to_le_bytes w (n / 256) (omega (arith, pow-suc 256 w)))

pub to_be_bytes-injective :
    (w n m : ℕ) → n < 256 ^ w → m < 256 ^ w → to_be_bytes w n ≡ to_be_bytes w m → n ≡ m
to_be_bytes-injective w n m hn hm e =
    sym (from_be_bytes-to_be_bytes w n hn) ∙ ap from_be_bytes e ∙ from_be_bytes-to_be_bytes w m hm

pub to_le_bytes-injective :
    (w n m : ℕ) → n < 256 ^ w → m < 256 ^ w → to_le_bytes w n ≡ to_le_bytes w m → n ≡ m
to_le_bytes-injective w n m hn hm e =
    sym (le_value-to_le_bytes w n hn) ∙ ap le_value e ∙ le_value-to_le_bytes w m hm

-- Two concatenations with first parts of one length agree part by part.
pub append_cancel :
    (xs ys us vs : Bytes) → length xs ≡ length us → xs ++ ys ≡ us ++ vs → (xs ≡ us) × (ys ≡ vs)
append_cancel [] ys [] vs h e = (refl, e)
append_cancel [] ys (u ∷ us) vs h e = absurd (omega arith)
append_cancel (x ∷ xs) ys [] vs h e = absurd (omega arith)
append_cancel (x ∷ xs) ys (u ∷ us) vs h e = ground (arith, append_cancel xs ys us vs (omega arith))
