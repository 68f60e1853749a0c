-- ===== src/Text/Split.antt =====
-- Pieces that hold no separator and no space are found again in the text that joins them.
use y7ke.Text.{is_whitespace, split, trim, trim_end, trim_start}
use y7ke.Prelude.{All, List, [], arith, false, refl, ℕ, ◌++◌, ◌==◌, ◌∷◌, ◌≡◌}

-- The pieces with a separator before each.
abbrev pub join : ℕ → List (List ℕ) → List ℕ
join sep [] = []
join sep (p ∷ ps) = sep ∷ p ++ join sep ps

-- No space and no separator.
abbrev pub IsPlain : ℕ → List ℕ → Type 0
IsPlain sep [] = Unit
IsPlain sep (c ∷ cs) = (is_whitespace c ≡ false) × ((c == sep) ≡ false) × IsPlain sep cs

split-piece :
    (sep : ℕ) (p : List ℕ) (ps : List (List ℕ))
    → IsPlain sep p
    → All (IsPlain sep) ps
    → split sep (p ++ join sep ps) ≡ p ∷ ps
unfolding split
split-piece sep [] [] h hs = refl
split-piece sep [] (q ∷ ps) h hs = ground (arith, split-piece sep q ps hs.0 hs.1)
split-piece sep (c ∷ cs) ps h hs = ground (arith, h, split-piece sep cs ps h.2 hs)

pub split-join :
    (sep : ℕ) (ps : List (List ℕ)) → All (IsPlain sep) ps → split sep (join sep ps) ≡ [] ∷ ps
split-join sep ps h = split-piece sep [] ps tt h

-- A text whose last character is no space, or that is empty.
trim_end-kept : (s : List ℕ) → All (λ c. is_whitespace c ≡ false) s → trim_end s ≡ s
unfolding trim_end
trim_end-kept [] h = refl
trim_end-kept (c ∷ []) h = rw h.0
trim_end-kept (c ∷ d ∷ ds) h = rw (trim_end-kept (d ∷ ds) h.1)

pub trim-kept : (s : List ℕ) → All (λ c. is_whitespace c ≡ false) s → trim s ≡ s
unfolding trim trim_start
trim-kept [] h = trim_end-kept [] h
trim-kept (c ∷ cs) h = rw h.0 (trim_end-kept (c ∷ cs) h)

All-piece :
    (sep : ℕ) (p rest : List ℕ)
    → IsPlain sep p
    → All (λ c. is_whitespace c ≡ false) rest
    → All (λ c. is_whitespace c ≡ false) (p ++ rest)
All-piece sep [] rest h hs = hs
All-piece sep (c ∷ cs) rest h hs = (h.0, All-piece sep cs rest h.2 hs)

pub All-join :
    (sep : ℕ) (ps : List (List ℕ))
    → is_whitespace sep ≡ false
    → All (IsPlain sep) ps
    → All (λ c. is_whitespace c ≡ false) (join sep ps)
All-join sep [] w h = tt
All-join sep (p ∷ ps) w h = (w, All-piece sep p (join sep ps) h.0 (All-join sep ps w h.1))
