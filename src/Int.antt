-- ===== src/Int.antt =====
-- `i64` values that may be negative: the timestamps that come from a peer.
use y7ke.Prelude.{ℕ, ◌+◌, ◌-◌, ◌^◌, ◌<◌, ◌≡◌, arith, ap}
use y7ke.Bytes.{Bytes, to_le_bytes, to_le_bytes-injective}

-- `negsuc n` is -(n + 1).
pub data ℤ : Type 0 where
  pos : ℕ → ℤ
  negsuc : ℕ → ℤ

-- The order of `i64` values as the order of numbers.
abbrev pub i64_key : ℤ → ℕ
i64_key (pos n) = 2 ^ 63 + n
i64_key (negsuc n) = 2 ^ 63 - 1 - n

abbrev pub InI64 : ℤ → Type 0
InI64 (pos n) = n < 2 ^ 63
InI64 (negsuc n) = n < 2 ^ 63

-- The two's complement pattern.
abbrev pub i64_bits : ℤ → ℕ
i64_bits (pos n) = n
i64_bits (negsuc n) = 2 ^ 64 - 1 - n

-- `i64::to_le_bytes`
abbrev pub i64_to_le_bytes : ℤ → Bytes
i64_to_le_bytes z = to_le_bytes 8 (i64_bits z)

i64_bits-injective : (a b : ℤ) → InI64 a → InI64 b → i64_bits a ≡ i64_bits b → a ≡ b
i64_bits-injective (pos n) (pos m) ha hb e = ap pos e
i64_bits-injective (pos n) (negsuc m) ha hb e = absurd (omega arith)
i64_bits-injective (negsuc n) (pos m) ha hb e = absurd (omega arith)
i64_bits-injective (negsuc n) (negsuc m) ha hb e = ap negsuc (omega arith)

i64_bits-lt : (a : ℤ) → InI64 a → i64_bits a < 256 ^ 8
i64_bits-lt (pos n) h = omega arith
i64_bits-lt (negsuc n) h = omega arith

pub i64_to_le_bytes-injective :
    (a b : ℤ) → InI64 a → InI64 b → i64_to_le_bytes a ≡ i64_to_le_bytes b → a ≡ b
i64_to_le_bytes-injective a b ha hb e =
    i64_bits-injective a b ha hb
      (to_le_bytes-injective 8 (i64_bits a) (i64_bits b) (i64_bits-lt a ha) (i64_bits-lt b hb) e)
