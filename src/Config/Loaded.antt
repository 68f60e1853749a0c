-- ===== src/Config/Loaded.antt =====
-- The list of bootstraps that is loaded.
use y7ke.Config.{
  default_bootstraps, default_relay_bootstrap, expand_bootstrap, is_nonempty, load_bootstraps,
  load_user_sources, or_default, parse_multiaddrs, parse_onto, prepend_new, push_expanded,
  push_parsed, user_or_default,
}
use y7ke.Status.{Result, err, ok}
use y7ke.Bytes.{Bytes}
use y7ke.Text.{trim}
use y7ke.Storage.Settings
use y7ke.Storage.Settings.{Settings, SettingsCodec}
use y7ke.Addr.{Multiaddr}
use y7ke.Addr.Equality.{IsDistinct, IsDistinct-snoc, contains, contains_iff}
use y7ke.Config.Members.{Gives, In-parse_multiaddrs}
use y7ke.Swarm.{push_new}
use y7ke.Prelude.{
  Bool-cases, ◌∙◌, refl, ◌≡◌, In, List, Option, [], arith, inl, inr, none, some, subst, sym, ℕ, ◌↔◌,
  ◌∷◌, ◌⊎◌,
}

push_new-IsDistinct :
    (m : Multiaddr) (out : List Multiaddr) → IsDistinct out → IsDistinct (push_new m out)
push_new-IsDistinct m out d = elim (Bool-cases (contains m out)) [
  | inl e ↦ rw e d
  | inr e ↦ rw e (IsDistinct-snoc out m d (λ i. ground (arith, (contains_iff m out).1 i, e)))
]

push_parsed-IsDistinct :
    (m : Option Multiaddr) (out : List Multiaddr) → IsDistinct out → IsDistinct (push_parsed m out)
push_parsed-IsDistinct none out d = d
push_parsed-IsDistinct (some m) out d = push_new-IsDistinct m out d

push_expanded-IsDistinct :
    (parse : List ℕ → Option Multiaddr) (ss : List (List ℕ)) (out : List Multiaddr)
    → IsDistinct out
    → IsDistinct (push_expanded parse ss out)
unfolding push_expanded
push_expanded-IsDistinct parse [] out d = d
push_expanded-IsDistinct parse (s ∷ ss) out d =
    push_expanded-IsDistinct parse ss _ (push_parsed-IsDistinct (parse s) out d)

parse_onto-IsDistinct :
    (parse : List ℕ → Option Multiaddr) (ss : List (List ℕ)) (out : List Multiaddr)
    → IsDistinct out
    → IsDistinct (parse_onto parse ss out)
unfolding parse_onto
parse_onto-IsDistinct parse [] out d = d
parse_onto-IsDistinct parse (s ∷ ss) out d = elim (Bool-cases (is_nonempty (trim s))) [
  | inl e ↦ rw e (
      parse_onto-IsDistinct parse ss _
        (push_expanded-IsDistinct parse (expand_bootstrap (trim s)) out d))
  | inr e ↦ rw e (parse_onto-IsDistinct parse ss out d)
]

parse_multiaddrs-IsDistinct :
    (parse : List ℕ → Option Multiaddr) (ss : List (List ℕ))
    → IsDistinct (parse_multiaddrs parse ss)
unfolding parse_multiaddrs
parse_multiaddrs-IsDistinct parse ss = parse_onto-IsDistinct parse ss [] tt

or_default-IsDistinct :
    (ds ms : List Multiaddr) → IsDistinct ds → IsDistinct ms → IsDistinct (or_default ds ms)
or_default-IsDistinct ds [] d m = d
or_default-IsDistinct ds (a ∷ more) d m = m

user_or_default-IsDistinct :
    (parse : List ℕ → Option Multiaddr) (r : Result Settings) → IsDistinct (user_or_default parse r)
user_or_default-IsDistinct parse (err e) = parse_multiaddrs-IsDistinct parse default_bootstraps
user_or_default-IsDistinct parse (ok s) =
    or_default-IsDistinct (parse_multiaddrs parse default_bootstraps)
      (parse_multiaddrs parse s.extra_bootstraps)
      (parse_multiaddrs-IsDistinct parse default_bootstraps)
      (parse_multiaddrs-IsDistinct parse s.extra_bootstraps)

known_member :
    (m a : Multiaddr) (ds rest result : List Multiaddr)
    → In a rest
    → (In m rest ↔ (In m ds ⊎ In m result))
    → (In m rest ↔ (In m (a ∷ ds) ⊎ In m result))
known_member m a ds rest result i h = (
  λ j. elim (h.0 j) [ inl d ↦ inl (inr d) | inr r ↦ inr r ],
  λ j. elim j [
    | inl (inl e) ↦ subst (λ x. In x rest) (sym e) i
    | inl (inr d) ↦ h.1 (inl d)
    | inr r ↦ h.1 (inr r)
  ],
)

new_member :
    (m a : Multiaddr) (ds rest result : List Multiaddr)
    → (In m rest ↔ (In m ds ⊎ In m result))
    → (In m (a ∷ rest) ↔ (In m (a ∷ ds) ⊎ In m result))
new_member m a ds rest result h = (
  λ j. elim j [
    | inl e ↦ inl (inl e)
    | inr k ↦ elim (h.0 k) [ inl d ↦ inl (inr d) | inr r ↦ inr r ]
  ],
  λ j. elim j [ inl (inl e) ↦ inl e | inl (inr d) ↦ inr (h.1 (inl d)) | inr r ↦ inr (h.1 (inr r)) ],
)

-- Members and duplicates of what is put in front.
prepend_new_lem :
    (ds result : List Multiaddr)
    → IsDistinct result
    → IsDistinct (prepend_new ds result)
      × ((m : Multiaddr) → In m (prepend_new ds result) ↔ (In m ds ⊎ In m result))
unfolding prepend_new
prepend_new_lem [] result d = (d, λ m. (λ i. inr i, λ h. ground (arith, h)))
prepend_new_lem (a ∷ ds) result d =
    let (distinct, members) = prepend_new_lem ds result d in
    let rest = prepend_new ds result in
    elim (Bool-cases (contains a rest)) [
      | inl e ↦
          rw e
            (distinct, λ m. known_member m a ds rest result ((contains_iff a rest).0 e) (members m))
      | inr e ↦ rw e (
        (λ i. ground (arith, (contains_iff a rest).1 i, e), distinct),
        λ m. new_member m a ds rest result (members m),
      )
    ]

-- An address that the user's settings give.
abbrev pub FromUser :
    SettingsCodec → (List ℕ → Option Multiaddr) → Option Bytes → Multiaddr → Type 0
FromUser codec parse row m =
    (s : Settings) × (Settings.get codec row ≡ ok s) × Gives parse s.extra_bootstraps m

In-or_default :
    (m : Multiaddr) (ds ms : List Multiaddr) → In m (or_default ds ms) → In m ds ⊎ In m ms
In-or_default m ds [] i = inl i
In-or_default m ds (a ∷ ms) i = inr i

or_default-In : (m : Multiaddr) (ds ms : List Multiaddr) → In m ms → In m (or_default ds ms)
or_default-In m ds [] i = absurd i
or_default-In m ds (a ∷ ms) i = i

ok-inj : (s t : Settings) → ok s ≡ ok t → s ≡ t
ok-inj s t e = cc

or_default_members :
    (codec : SettingsCodec) (parse : List ℕ → Option Multiaddr) (row : Option Bytes) (m : Multiaddr)
    (s : Settings)
    → Settings.get codec row ≡ ok s
    → (own : List Multiaddr) → parse_multiaddrs parse s.extra_bootstraps ≡ own
    → (In m (parse_multiaddrs parse default_bootstraps)
        ⊎ In m (or_default (parse_multiaddrs parse default_bootstraps) own))
      ↔ (Gives parse default_bootstraps m ⊎ FromUser codec parse row m)
or_default_members codec parse row m s q own e =
    let built = In-parse_multiaddrs parse default_bootstraps m in
    let given : In m own ↔ Gives parse s.extra_bootstraps m =
      subst (λ l. In m l ↔ Gives parse s.extra_bootstraps m) e
        (In-parse_multiaddrs parse s.extra_bootstraps m) in
    (
      λ h. elim h [
        | inl i ↦ inl (built.0 i)
        | inr i ↦ elim (In-or_default m (parse_multiaddrs parse default_bootstraps) own i) [
          | inl j ↦ inl (built.0 j)
          | inr j ↦ inr (s, q, given.0 j)
        ]
      ],
      λ h. elim h [
        | inl g ↦ inl (built.1 g)
        | inr (s', q', g) ↦ inr (
            or_default-In m (parse_multiaddrs parse default_bootstraps) own (
              given.1 (subst (λ t. Gives parse t.extra_bootstraps m) (ok-inj s' s (sym q' ∙ q)) g)))
      ],
    )

user_members :
    (codec : SettingsCodec) (parse : List ℕ → Option Multiaddr) (row : Option Bytes) (m : Multiaddr)
    (r : Result Settings)
    → Settings.get codec row ≡ r
    → (In m (parse_multiaddrs parse default_bootstraps) ⊎ In m (user_or_default parse r))
      ↔ (Gives parse default_bootstraps m ⊎ FromUser codec parse row m)
user_members codec parse row m (err e) q =
    let built = In-parse_multiaddrs parse default_bootstraps m in
    (
      λ h. elim h [ inl i ↦ inl (built.0 i) | inr i ↦ inl (built.0 i) ],
      λ h. elim h [ inl g ↦ inl (built.1 g) | inr (s, t, g) ↦ cc ],
    )
user_members codec parse row m (ok s) q =
    or_default_members codec parse row m s q (parse_multiaddrs parse s.extra_bootstraps) refl

-- The list of bootstraps that is loaded has no address twice, and its addresses are those that the
-- built-in relay gives and those that the entries of the user's settings give, where these can be read:
-- a form that an entry, trimmed and not blank, is expanded to, is parsed to the address. So the
-- built-in relay is never lost, and no entry of the settings that parses.
pub load_bootstraps-members :
    (codec : SettingsCodec) (parse : List ℕ → Option Multiaddr) (row : Option Bytes) (m : Multiaddr)
    → let loaded = load_bootstraps codec parse row in
      IsDistinct loaded
      × (In m loaded ↔ (Gives parse (default_relay_bootstrap ∷ []) m ⊎ FromUser codec parse row m))
unfolding load_bootstraps load_user_sources
load_bootstraps-members codec parse row m =
    let sources = Settings.get codec row in
    let (distinct, members) =
      prepend_new_lem (parse_multiaddrs parse default_bootstraps) (user_or_default parse sources)
        (user_or_default-IsDistinct parse sources) in
    let users = user_members codec parse row m sources refl in
    (distinct, (λ i. users.0 ((members m).0 i), λ h. (members m).1 (users.1 h)))
