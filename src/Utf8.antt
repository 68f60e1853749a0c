-- ===== src/Utf8.antt =====
-- `String::from_utf8`: which byte strings are the text of a Rust `String`.
use y7ke.Prelude.{ℕ, Bool, true, false, ◌&&◌, [], ◌∷◌, ltb, leb, ◌==◌, if◌then◌else◌, suc, zero}
use y7ke.Bytes.{Bytes}

abbrev within : ℕ → ℕ → ℕ → Bool
within lo hi b = leb lo b && leb b hi

abbrev continues : ℕ → Bool
continues b = within 128 191 b

-- What a leading byte asks of those behind it: how many, and the range of the first.
pub record Lead : Type 0 where
  pub count : ℕ
  pub lo : ℕ
  pub hi : ℕ

abbrev lead : ℕ → Lead
lead b =
    if ltb b 128
    then record { count = 0; lo = 0; hi = 0 }
    else if within 194 223 b
    then record { count = 1; lo = 128; hi = 191 }
    else if b == 224
    then record { count = 2; lo = 160; hi = 191 }
    else if b == 237
    then record { count = 2; lo = 128; hi = 159 }
    else if within 225 239 b
    then record { count = 2; lo = 128; hi = 191 }
    else if b == 240
    then record { count = 3; lo = 144; hi = 191 }
    else if within 241 243 b
    then record { count = 3; lo = 128; hi = 191 }
    else if b == 244
    then record { count = 3; lo = 128; hi = 143 }
    else record { count = 4; lo = 0; hi = 0 }

-- `pending` bytes are still to come, the next of them in [lo, hi]; 4 marks a byte that leads nothing.
utf8_from : ℕ → ℕ → ℕ → Bytes → Bool
utf8_from zero lo hi [] = true
utf8_from (suc n) lo hi [] = false
utf8_from zero lo hi (b ∷ bs) =
    let l = lead b in let rest = utf8_from l.count l.lo l.hi bs in ltb l.count 4 && rest
utf8_from (suc n) lo hi (b ∷ bs) = let rest = utf8_from n 128 191 bs in within lo hi b && rest

unfoldable pub valid_utf8 : Bytes → Bool
unfolding utf8_from
valid_utf8 bs = utf8_from 0 0 0 bs
