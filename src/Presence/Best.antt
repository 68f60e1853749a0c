-- ===== src/Presence/Best.antt =====
-- The best connection of a peer.
use y7ke.Prelude.{
  ℕ, ◌≤◌, ◌≡◌, refl, sym, subst, none, some, List, [], ◌∷◌, leb, arith, In, All, inl, inr, ◌⊎◌,
  Bool-cases, Option-cases, All-of_In, In-of_All,
}
use y7ke.Map
use y7ke.Map.{Map}
use y7ke.Presence.{
  ConnEntry, best_conn, max_by_precedence, connection_kind_precedence, default_meta,
}
use y7ke.Status.{offline}

abbrev rank : ConnEntry → ℕ
rank e = connection_kind_precedence e.kind

max-none : (es : List ConnEntry) → max_by_precedence es ≡ none → es ≡ []
unfolding max_by_precedence
max-none [] p = refl
max-none (e ∷ es) p = ground (arith, p)

max-some :
    (es : List ConnEntry) (m : ConnEntry)
    → max_by_precedence es ≡ some m
    → In m es × All (λ e. rank e ≤ rank m) es
unfolding max_by_precedence
max-some [] m p = ground (arith, p)
max-some (e ∷ es) m p = elim (Option-cases (max_by_precedence es)) [
  | inl q ↦ ground (arith, p, q, max-none es q)
  | inr (k, q) ↦
      let (i, a) = max-some es k q in
      let higher = λ (n : ℕ) (h : rank k ≤ n).
        All-of_In (λ x. rank x ≤ n) es
          λ x j. ground (arith, h, In-of_All (λ x. rank x ≤ rank k) x es a j) in
      elim (Bool-cases (leb (rank e) (rank k))) [
        | inl r ↦
            let same : m ≡ k = ground (arith, p, q, r) in
            (
              inr (subst (λ x. In x es) (sym same) i),
              (ground (arith, same, r), subst (λ x. All (λ y. rank y ≤ rank x) es) (sym same) a),
            )
        | inr r ↦
            let same : m ≡ e = ground (arith, p, q, r) in
            (
              inl same,
              (
                ground (arith, same),
                subst (λ x. All (λ y. rank y ≤ rank x) es) (sym same)
                    (higher (rank e) (ground (arith, r))),
              ),
            )
      ]
]

-- The kind that presence shows is that of a live connection of the peer, and no live connection has
-- a better one; with no connection it is offline.
best_conn-IsBest :
    (conns : Map ConnEntry)
    → All
        (λ e. connection_kind_precedence e.kind ≤ connection_kind_precedence (best_conn conns).0)
        (Map.values conns)
      × ((Map.values conns ≡ []) × (best_conn conns ≡ (offline, default_meta))
          ⊎ ((e : ConnEntry) × In e (Map.values conns) × (best_conn conns ≡ (e.kind, e.meta))))
unfolding best_conn
best_conn-IsBest conns = elim (Option-cases (max_by_precedence (Map.values conns))) [
  | inl p ↦
      let none_left = max-none (Map.values conns) p in rw p (rw none_left (tt, inl (refl, refl)))
  | inr (m, p) ↦ let (i, a) = max-some (Map.values conns) m p in rw p (a, inr (m, i, refl))
]
