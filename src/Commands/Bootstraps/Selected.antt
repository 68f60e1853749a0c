-- ===== src/Commands/Bootstraps/Selected.antt =====
-- The bootstrap that is selected.
use y7ke.Commands.Bootstraps.{
  BootstrapEntry, BootstrapPingState, Pings, addr_or_default, best_addr, best_from, better,
  ping_all_bootstraps, select_best_bootstrap,
}
use mathlib.Core.List.{append-nil, append_assoc}
use y7ke.Status.{Result, err, ok}
use y7ke.Storage.Settings.{SettingsCodec}
use y7ke.Config.{default_relay_bootstrap}
use y7ke.Bytes.{Bytes}
use y7ke.Prelude.{
  Bool, Bool-cases, In, In-append_left, In-append_right, In-snoc, List, Option, [], arith, false,
  if◌then◌else◌, inl, inr, leb, leb→gt, leb→le, none, refl, some, subst, true, ℕ, ◌++◌, ◌∷◌, ◌≡◌,
  ◌≤◌, ◌⊎◌,
}

-- An entry that answered its ping in the time given.
abbrev pub Answered : BootstrapEntry → ℕ → Type 0
Answered e rtt = (e.last_ping_failed ≡ false) × (e.last_ping_ms ≡ some rtt)

-- No entry of a list answered sooner.
abbrev pub IsFastest : ℕ → List BootstrapEntry → Type 0
IsFastest rtt entries =
    (e : BootstrapEntry) (rival : ℕ) → In e entries → Answered e rival → rtt ≤ rival

-- What the loop has found, of the entries that it has seen.
abbrev IsBest : Option (BootstrapEntry × ℕ) → List BootstrapEntry → Type 0
IsBest none seen = (e : BootstrapEntry) (rtt : ℕ) → In e seen → ¬ (Answered e rtt)
IsBest (some (b, cur)) seen = In b seen × Answered b cur × IsFastest cur seen

-- An answer in the time given is no better than the best.
abbrev NoBetter : Option (BootstrapEntry × ℕ) → ℕ → Type 0
NoBetter none rival = ⊥
NoBetter (some (b, cur)) rival = cur ≤ rival

keep-IsBest :
    (e : BootstrapEntry) (best : Option (BootstrapEntry × ℕ)) (seen : List BootstrapEntry)
    → ((rival : ℕ) → Answered e rival → NoBetter best rival)
    → IsBest best seen
    → IsBest best (seen ++ e ∷ [])
keep-IsBest e none seen worse h = λ x rtt i a. elim (In-snoc x e seen i) [
  | inl m ↦ h x rtt m a
  | inr p ↦ worse rtt (subst (λ y. Answered y rtt) p a)
]
keep-IsBest e (some (b, cur)) seen worse (i, a, f) = (
  In-append_left b seen (e ∷ []) i,
  a,
  λ x rival j a'. elim (In-snoc x e seen j) [
    | inl m ↦ f x rival m a'
    | inr p ↦ worse rival (subst (λ y. Answered y rival) p a')
  ],
)

not_working : (e : BootstrapEntry) (rival : ℕ) → e.last_ping_failed ≡ true → ¬ (Answered e rival)
not_working e rival p a = ground (arith, p, a)

no_time : (e : BootstrapEntry) (rival : ℕ) → e.last_ping_ms ≡ none → ¬ (Answered e rival)
no_time e rival p a = ground (arith, p, a)

same_time :
    (e : BootstrapEntry) (r rival : ℕ) → e.last_ping_ms ≡ some r → Answered e rival → r ≡ rival
same_time e r rival p a = ground (arith, p, a)

-- The entry takes the place of the best, where it answered and no entry seen was sooner.
take-IsBest :
    (e : BootstrapEntry) (r : ℕ) (seen : List BootstrapEntry)
    → Answered e r
    → IsFastest r seen
    → IsBest (some (e, r)) (seen ++ e ∷ [])
take-IsBest e r seen a f = (
  In-append_right e seen (e ∷ []) (inl refl),
  a,
  λ x rival j a'. elim (In-snoc x e seen j) [
    | inl m ↦ f x rival m a'
    | inr p ↦ omega (arith, same_time e r rival a.1 (subst (λ y. Answered y rival) p a'))
  ],
)

better-IsBest :
    (e : BootstrapEntry) (rtt : Option ℕ) (best : Option (BootstrapEntry × ℕ))
    (seen : List BootstrapEntry)
    → e.last_ping_failed ≡ false
    → e.last_ping_ms ≡ rtt
    → IsBest best seen
    → IsBest (better e rtt best) (seen ++ e ∷ [])
better-IsBest e none best seen working time h =
    keep-IsBest e best seen (λ rival a. absurd (no_time e rival time a)) h
better-IsBest e (some r) none seen working time h =
    take-IsBest e r seen (working, time) (λ x rival i a. absurd (h x rival i a))
better-IsBest e (some r) (some (b, cur)) seen working time (i, a, f) =
    elim (Bool-cases (leb cur r)) [
      | inl c ↦ rw c (
          keep-IsBest e (some (b, cur)) seen
            (λ rival a'. omega (arith, leb→le cur r c, same_time e r rival time a')) (i, a, f))
      | inr c ↦ rw c (
          take-IsBest e r seen (working, time)
            (λ x rival j a'. omega (arith, leb→gt cur r c, f x rival j a')))
    ]

step-IsBest :
    (failed : Bool) (e : BootstrapEntry) (best : Option (BootstrapEntry × ℕ))
    (seen : List BootstrapEntry)
    → e.last_ping_failed ≡ failed
    → IsBest best seen
    → IsBest (if failed then best else better e e.last_ping_ms best) (seen ++ e ∷ [])
step-IsBest true e best seen c h =
    keep-IsBest e best seen (λ rival a. absurd (not_working e rival c a)) h
step-IsBest false e best seen c h = better-IsBest e e.last_ping_ms best seen c refl h

best_from-IsBest :
    (best : Option (BootstrapEntry × ℕ)) (entries seen : List BootstrapEntry)
    → IsBest best seen
    → IsBest (best_from best entries) (seen ++ entries)
unfolding best_from
best_from-IsBest best [] seen h = rw (append-nil seen) h
best_from-IsBest best (e ∷ entries) seen h =
    let next = if e.last_ping_failed then best else better e e.last_ping_ms best in
    rw (← append_assoc seen (e ∷ []) entries) (
      best_from-IsBest next entries (seen ++ e ∷ [])
        (step-IsBest e.last_ping_failed e best seen refl h))

-- The address of an entry that answered, and none sooner, or the built-in one where none answered.
abbrev pub IsSelected : List ℕ → List BootstrapEntry → Type 0
IsSelected addr entries =
    ((e : BootstrapEntry) × (rtt : ℕ) × (addr ≡ e.multiaddr)
      × In e entries
      × Answered e rtt
      × IsFastest rtt entries)
    ⊎ ((addr ≡ default_relay_bootstrap)
        × ((e : BootstrapEntry) (rtt : ℕ) → In e entries → ¬ (Answered e rtt)))

IsSelected-best :
    (best : Option (BootstrapEntry × ℕ)) (entries : List BootstrapEntry)
    → IsBest best entries
    → IsSelected (addr_or_default best) entries
IsSelected-best none entries h = inr (refl, h)
IsSelected-best (some (b, cur)) entries (i, a, f) = inl (b, cur, refl, i, a, f)

abbrev pub Selects : List ℕ → Result (List BootstrapEntry) → Type 0
Selects addr (err e) = addr ≡ default_relay_bootstrap
Selects addr (ok entries) = IsSelected addr entries

Selects-best : (pinged : Result (List BootstrapEntry)) → Selects (best_addr pinged) pinged
Selects-best (err e) = refl
Selects-best (ok entries) =
    IsSelected-best (best_from none entries) entries
      (best_from-IsBest none entries [] (λ e rtt i. absurd i))

-- The bootstrap that is selected is one of the entries just pinged that answered in the least time. It
-- is the built-in one where no entry answered, or where the settings cannot be read.
pub select_best_bootstrap-Selects :
    (codec : SettingsCodec) (ping : List ℕ → BootstrapPingState) (row : Option Bytes)
    (pings : Pings)
    → Selects
        (select_best_bootstrap codec ping row pings)
        (ping_all_bootstraps codec ping row pings).0
unfolding select_best_bootstrap
select_best_bootstrap-Selects codec ping row pings =
    Selects-best (ping_all_bootstraps codec ping row pings).0
