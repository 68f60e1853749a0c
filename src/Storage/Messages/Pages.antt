-- ===== src/Storage/Messages/Pages.antt =====
-- The queries that the reconcile protocol makes.
use y7ke.Prelude.{
  ℕ, ◌≤◌, ◌≡◌, refl, ◌⊎◌, inl, inr, ◌&&◌, Bool, true, none, some, Option, List, In, All, All-of_In,
  [], ◌∷◌, length, sort_by, In-sort_by, sort_by-IsSorted, last?-IsSorted, last?-In, last?-none,
  In-take, In-take_or_drop, take-IsSorted, length-take_full, take, last?, retain,
}
use y7ke.Sql.{select}
use y7ke.Sql.Rows.{In-retain}
use y7ke.Ident.{MessageId, ConversationId}
use y7ke.Storage.Messages.{
  Message, by_id, inbound, outbound, after, id_of, highest_inbound, highest_outbound,
  pull_outbound_after,
}

-- The newest id of the rows that pass a test, as the code asks for it.
abbrev newest : (Message → Bool) → List Message → Option MessageId
newest p rows = id_of (last? (sort_by by_id (select p rows)))

-- `h` is the greatest id of the rows that pass, and none when no row does.
abbrev pub IsNewest : (Message → Bool) → List Message → Option MessageId → Type 0
IsNewest p rows none = retain p rows ≡ []
IsNewest p rows (some h) =
    ((m : Message) × (In m (retain p rows)) × (m.message_id ≡ h))
    × All (λ m. m.message_id ≤ h) (retain p rows)

sort_by-nil : (key : Message → ℕ) (xs : List Message) → sort_by key xs ≡ [] → xs ≡ []
sort_by-nil key [] e = refl
sort_by-nil key (x ∷ xs) e = absurd (rw e at ((In-sort_by key x (x ∷ xs)).1 (inl refl)))

newest-IsNewest : (p : Message → Bool) (rows : List Message) → IsNewest p rows (newest p rows)
newest-IsNewest p rows = go (last? ordered_rows) refl
  where
    ordered_rows : List Message
    ordered_rows = sort_by by_id (retain p rows)

    go : (o : Option Message) → last? ordered_rows ≡ o → IsNewest p rows (id_of o)
    go none e = sort_by-nil by_id (retain p rows) (last?-none by_id ordered_rows e)
    go (some z) e = (
      (z, (In-sort_by by_id z (retain p rows)).0 (last?-In by_id ordered_rows z e), refl),
      All-of_In _ (retain p rows) λ m i.
          last?-IsSorted by_id ordered_rows z m (sort_by-IsSorted by_id (retain p rows)) e
            ((In-sort_by by_id m (retain p rows)).1 i),
    )

-- The two digests that a peer announces are the greatest ids of its messages of the conversation,
-- in each direction, and are absent just when there is no such message.
highest-IsNewest :
    (rows : List Message) (conv : ConversationId) (me : ℕ)
    → IsNewest (inbound conv me) rows (highest_inbound rows conv me)
      × IsNewest (outbound conv me) rows (highest_outbound rows conv me)
unfolding highest_inbound highest_outbound
highest-IsNewest rows conv me =
    (newest-IsNewest (inbound conv me) rows, newest-IsNewest (outbound conv me) rows)

abbrev pub wanted : ConversationId → ℕ → Option MessageId → Message → Bool
wanted conv sender since m = outbound conv sender m && after since m.message_id

module _ (rows : List Message) (conv : ConversationId) (sender : ℕ) (since : Option MessageId)
    (limit : ℕ) where
  abbrev page_order : List Message
  page_order = sort_by by_id (retain (wanted conv sender since) rows)

  pub In-page :
      (m : Message)
      → In m (pull_outbound_after rows conv sender since limit)
      → In m rows × (wanted conv sender since m ≡ true)
  unfolding pull_outbound_after
  In-page m i = (In-retain (wanted conv sender since) m rows).0 (
      (In-sort_by by_id m (retain (wanted conv sender since) rows)).0
        (In-take limit m page_order i))

  -- A page of the outbound messages after `since` holds only such messages, and one of them that it
  -- leaves out is at least as new as all that it holds, on a page that is full.
  pub pull_outbound_after_page :
      (m : Message)
      → In m rows
      → wanted conv sender since m ≡ true
      → All
          (λ n. In n rows × (wanted conv sender since n ≡ true))
          (pull_outbound_after rows conv sender since limit)
        × (In m (pull_outbound_after rows conv sender since limit)
            ⊎ (length (pull_outbound_after rows conv sender since limit) ≡ limit)
              × All
                  (λ n. n.message_id ≤ m.message_id)
                  (pull_outbound_after rows conv sender since limit))
  pull_outbound_after_page m i t = (All-of_In _ _ In-page, unfold pull_outbound_after in split)
    where
      listed : In m page_order
      listed =
          (In-sort_by by_id m (retain (wanted conv sender since) rows)).1
            ((In-retain (wanted conv sender since) m rows).1 (i, t))

      split :
          In m (take limit page_order)
          ⊎ (length (take limit page_order) ≡ limit)
            × All (λ n. n.message_id ≤ m.message_id) (take limit page_order)
      split = elim (In-take_or_drop limit m page_order listed) [
        | inl now ↦ inl now
        | inr later ↦ inr (
          length-take_full limit m page_order later,
          All-of_In _ (take limit page_order) λ n j.
              take-IsSorted by_id limit page_order n m
                (sort_by-IsSorted by_id (retain (wanted conv sender since) rows)) j later,
        )
      ]
