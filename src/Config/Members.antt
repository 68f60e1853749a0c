-- ===== src/Config/Members.antt =====
-- The addresses that a list of entries gives, by `parse_multiaddrs`.
use y7ke.Config.{
  expand_bootstrap, is_nonempty, parse_multiaddrs, parse_onto, push_expanded, push_parsed,
}
use y7ke.Text.{trim}
use y7ke.Addr.{Multiaddr}
use y7ke.Addr.Equality.{contains, contains_iff}
use y7ke.Swarm.{push_new}
use y7ke.Prelude.{
  Bool-cases, true, refl, ap, ◌≡◌, In-snoc, In-append_left, In-append_right, In, List, Option, [],
  inl, inr, none, some, subst, sym, ℕ, ◌↔◌, ◌∷◌, ◌⊎◌,
}

In-push_new :
    (m a : Multiaddr) (out : List Multiaddr) → In m (push_new a out) ↔ (In m out ⊎ (m ≡ a))
In-push_new m a out = elim (Bool-cases (contains a out)) [
  | inl e ↦ rw e (
    λ i. inl i,
    λ h. elim h [ inl i ↦ i | inr q ↦ subst (λ x. In x out) (sym q) ((contains_iff a out).0 e) ],
  )
  | inr e ↦ rw e (
    λ i. In-snoc m a out i,
    λ h. elim h [
      | inl i ↦ In-append_left m out (a ∷ []) i
      | inr q ↦ In-append_right m out (a ∷ []) (inl q)
    ],
  )
]

In-push_parsed :
    (m : Multiaddr) (found : Option Multiaddr) (out : List Multiaddr)
    → In m (push_parsed found out) ↔ (In m out ⊎ (found ≡ some m))
In-push_parsed m none out = (λ i. inl i, λ h. elim h [ inl i ↦ i | inr e ↦ cc ])
In-push_parsed m (some a) out = (
  λ i. elim ((In-push_new m a out).0 i) [ inl j ↦ inl j | inr e ↦ inr (ap some (sym e)) ],
  λ h. (In-push_new m a out).1 (elim h [ inl i ↦ inl i | inr e ↦ inr (cc) ]),
)

-- An address that one of the texts is parsed to.
abbrev OneOf : (List ℕ → Option Multiaddr) → List (List ℕ) → Multiaddr → Type 0
OneOf parse forms m = (form : List ℕ) × In form forms × (parse form ≡ some m)

In-push_expanded :
    (parse : List ℕ → Option Multiaddr) (m : Multiaddr) (forms : List (List ℕ))
    (out : List Multiaddr)
    → In m (push_expanded parse forms out) ↔ (In m out ⊎ OneOf parse forms m)
unfolding push_expanded
In-push_expanded parse m [] out = (λ i. inl i, λ h. elim h [ inl i ↦ i | inr (f, i, e) ↦ absurd i ])
In-push_expanded parse m (s ∷ ss) out =
    let rest = In-push_expanded parse m ss (push_parsed (parse s) out) in
    let first = In-push_parsed m (parse s) out in
    (
      λ i. elim (rest.0 i) [
        | inl j ↦ elim (first.0 j) [ inl k ↦ inl k | inr e ↦ inr (s, inl refl, e) ]
        | inr (f, j, e) ↦ inr (f, inr j, e)
      ],
      λ h. rest.1 (elim h [
        | inl i ↦ inl (first.1 (inl i))
        | inr (f, inl q, e) ↦ inl (first.1 (inr (subst (λ x. parse x ≡ some m) q e)))
        | inr (f, inr j, e) ↦ inr (f, j, e)
      ]),
    )

-- An address that a list of entries gives: a form of one of them that is not blank is parsed to it.
pub record Gives (parse : List ℕ → Option Multiaddr) (entries : List (List ℕ)) (m : Multiaddr)
    : Type 0 where
  pub entry : List ℕ
  pub form : List ℕ
  pub listed : In entry entries
  pub not_blank : ¬ (trim entry ≡ [])
  pub expanded : In form (expand_bootstrap (trim entry))
  pub parsed : parse form ≡ some m

nonempty_iff : (s : List ℕ) → (is_nonempty s ≡ true) ↔ ¬ (s ≡ [])
nonempty_iff [] = (λ h. cc, λ n. absurd (n refl))
nonempty_iff (c ∷ cs) = (λ h e. cc, λ n. refl)

Gives-next :
    (parse : List ℕ → Option Multiaddr) (s : List ℕ) (ss : List (List ℕ)) (m : Multiaddr)
    → Gives parse ss m
    → Gives parse (s ∷ ss) m
Gives-next parse s ss m g = record {
  entry = g.entry;
  form = g.form;
  listed = inr g.listed;
  not_blank = g.not_blank;
  expanded = g.expanded;
  parsed = g.parsed;
}

Gives-cases :
    (parse : List ℕ → Option Multiaddr) (s : List ℕ) (ss : List (List ℕ)) (m : Multiaddr)
    → Gives parse (s ∷ ss) m
    → ((is_nonempty (trim s) ≡ true) × OneOf parse (expand_bootstrap (trim s)) m) ⊎ Gives parse ss m
Gives-cases parse s ss m g = elim g.listed [
  | inl e ↦ inl (
    (nonempty_iff (trim s)).1 (subst (λ x. ¬ (trim x ≡ [])) e g.not_blank),
    (g.form, subst (λ x. In g.form (expand_bootstrap (trim x))) e g.expanded, g.parsed),
  )
  | inr i ↦ inr (record {
    entry = g.entry;
    form = g.form;
    listed = i;
    not_blank = g.not_blank;
    expanded = g.expanded;
    parsed = g.parsed;
  })
]

In-parse_onto :
    (parse : List ℕ → Option Multiaddr) (m : Multiaddr) (ss : List (List ℕ)) (out : List Multiaddr)
    → In m (parse_onto parse ss out) ↔ (In m out ⊎ Gives parse ss m)
unfolding parse_onto
In-parse_onto parse m [] out = (λ i. inl i, λ h. elim h [ inl i ↦ i | inr g ↦ absurd g.listed ])
In-parse_onto parse m (s ∷ ss) out = elim (Bool-cases (is_nonempty (trim s))) [
  | inl e ↦
      let forms = expand_bootstrap (trim s) in
      let rest = In-parse_onto parse m ss (push_expanded parse forms out) in
      let first = In-push_expanded parse m forms out in
      rw e (
        λ i. elim (rest.0 i) [
          | inl j ↦ elim (first.0 j) [
            | inl k ↦ inl k
            | inr (f, k, p) ↦ inr (record {
              entry = s;
              form = f;
              listed = inl refl;
              not_blank = (nonempty_iff (trim s)).0 e;
              expanded = k;
              parsed = p;
            })
          ]
          | inr g ↦ inr (Gives-next parse s ss m g)
        ],
        λ h. rest.1 (elim h [
          | inl i ↦ inl (first.1 (inl i))
          | inr g ↦ elim (Gives-cases parse s ss m g) [
            | inl (ne, one) ↦ inl (first.1 (inr one))
            | inr g' ↦ inr g'
          ]
        ]),
      )
  | inr e ↦
      let rest = In-parse_onto parse m ss out in
      rw e (
        λ i. elim (rest.0 i) [ inl j ↦ inl j | inr g ↦ inr (Gives-next parse s ss m g) ],
        λ h. rest.1 (elim h [
          | inl i ↦ inl i
          | inr g ↦ elim (Gives-cases parse s ss m g) [ inl (ne, one) ↦ cc | inr g' ↦ inr g' ]
        ]),
      )
]

pub In-parse_multiaddrs :
    (parse : List ℕ → Option Multiaddr) (entries : List (List ℕ)) (m : Multiaddr)
    → In m (parse_multiaddrs parse entries) ↔ Gives parse entries m
unfolding parse_multiaddrs
In-parse_multiaddrs parse entries m =
    let onto = In-parse_onto parse m entries [] in
    (λ i. elim (onto.0 i) [ inl j ↦ absurd j | inr g ↦ g ], λ g. onto.1 (inr g))
