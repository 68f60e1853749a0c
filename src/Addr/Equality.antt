-- ===== src/Addr/Equality.antt =====
-- `==` of two addresses, and `Vec::contains`.
use native.Mathlib.Decide.{ℕ_discrete}
use text.Mathlib.Text.{◌==◌ as str_eq}
use text.Mathlib.TextEquality.{eq_iff}
use y7ke.Prelude.{
  ◌≡◌, refl, ◌↔◌, Bool, true, false, List, [], ◌∷◌, any, String, arith, In, inl, inr, ◌++◌, In-snoc,
  sym,
}
use y7ke.Addr.{Protocol, Multiaddr}

by_test : {P : Type 0} (b : Bool) → (b ≡ true → P) → (b ≡ false → ¬ P) → Dec P
by_test true p n = yes (p refl)
by_test false p n = no (n refl)

String-discrete : Discrete String
unfolding by_test
String-discrete s t = by_test (str_eq s t) (eq_iff s t).0 (λ f e. ground (arith, (eq_iff s t).1 e))

Protocol-discrete : Discrete Protocol
unfolding String-discrete ℕ_discrete
Protocol-discrete =
    Protocol.discrete_by_fields String-discrete String-discrete String-discrete ℕ_discrete
      ℕ_discrete ℕ_discrete ℕ_discrete ℕ_discrete

Multiaddr-discrete : Discrete Multiaddr
unfolding Protocol-discrete
Multiaddr-discrete = List.discrete_by_fields Protocol Protocol-discrete

abbrev decided : {A : Type 0} → Dec A → Bool
decided (yes a) = true
decided (no f) = false

unfoldable pub same_addr : Multiaddr → Multiaddr → Bool
unfolding Multiaddr-discrete
same_addr a b = decided (Multiaddr-discrete a b)

pub same_addr_iff : (a b : Multiaddr) → (same_addr a b ≡ true) ↔ (a ≡ b)
unfolding same_addr
same_addr_iff a b = elim (Multiaddr-discrete a b) as (λ d. (decided d ≡ true) ↔ (a ≡ b)) [
  | yes e ↦ (λ h. e, λ h. refl)
  | no f ↦ (λ h. cc, λ h. absurd (f h))
]

unfoldable pub contains : Multiaddr → List Multiaddr → Bool
contains addr addrs = any (same_addr addr) addrs

pub contains_iff :
    (addr : Multiaddr) (addrs : List Multiaddr) → (contains addr addrs ≡ true) ↔ In addr addrs
unfolding contains
contains_iff addr [] = (λ h. cc, λ h. absurd h)
contains_iff addr (a ∷ addrs) = ground (arith, same_addr_iff addr a, contains_iff addr addrs)

abbrev pub IsDistinct : List Multiaddr → Type 0
IsDistinct [] = Unit
IsDistinct (a ∷ addrs) = ¬ (In a addrs) × IsDistinct addrs

pub IsDistinct-snoc :
    (addrs : List Multiaddr) (addr : Multiaddr)
    → IsDistinct addrs
    → ¬ (In addr addrs)
    → IsDistinct (addrs ++ addr ∷ [])
IsDistinct-snoc [] addr d n = (λ h. h, tt)
IsDistinct-snoc (a ∷ addrs) addr d n = (
  λ h. elim (In-snoc a addr addrs h) [ inl m ↦ d.0 m | inr e ↦ n (inl (sym e)) ],
  IsDistinct-snoc addrs addr d.1 (λ m. n (inr m)),
)
