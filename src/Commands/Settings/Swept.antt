-- ===== src/Commands/Settings/Swept.antt =====
-- The sweep of the cached addresses.
use y7ke.Commands.Settings.{
  TextsCodec, decoded_texts, sweep_decoded, sweep_each, sweep_stale_relay_addrs,
  to_json_unless_empty, without_circuits,
}
use y7ke.Storage.PeerStates
use y7ke.Storage.PeerStates.{PeerState, has_peer}
use y7ke.Dialing.{circuit_text}
use y7ke.Text.{has_part}
use y7ke.Bytes.{Bytes}
use y7ke.Sql.Rows.{In-upsert}
use y7ke.Prelude.{
  Bool-cases, In, In-retain, List, Option, [], ap, arith, false, inl, inr, none, not, refl, some,
  subst, sym, ℕ, ◌∷◌, ◌≡◌, ◌⊎◌,
}

-- What serde_json writes of a list it reads again.
pub record TextsLaws (codec : TextsCodec) : Type 0 where
  pub from-to :
      (texts : List (List ℕ)) (json : Bytes)
      → codec.texts_to_json texts ≡ some json
      → codec.texts_from_json json ≡ some texts

abbrev texts_or_empty : Option (List (List ℕ)) → List (List ℕ)
texts_or_empty none = []
texts_or_empty (some texts) = texts

-- A row whose list can be read and holds no circuit, or that has none that can be read.
abbrev pub IsSwept : TextsCodec → PeerState → Type 0
IsSwept codec p =
    (s : List ℕ)
    → In s (texts_or_empty (decoded_texts codec p.last_addrs_json))
    → has_part circuit_text s ≡ false

without_circuits-member :
    (s : List ℕ) (texts : List (List ℕ))
    → In s (without_circuits texts)
    → has_part circuit_text s ≡ false
without_circuits-member s texts m =
    ground (arith, In-retain (λ s. not (has_part circuit_text s)) s texts m)

-- Each row is swept or waits to be.
abbrev Pending : TextsCodec → List PeerState → List PeerState → Type 0
Pending codec peers rows = (row : PeerState) → In row rows → IsSwept codec row ⊎ In row peers

-- The list that the sweep writes.
written_member :
    (codec : TextsCodec) (laws : TextsLaws codec) (s : List ℕ) (kept : List (List ℕ))
    (json : Option Bytes)
    → codec.texts_to_json kept ≡ json
    → In s (texts_or_empty (decoded_texts codec json))
    → In s kept
written_member codec laws s kept none e m = absurd m
written_member codec laws s kept (some json) e m = rw (laws.from-to kept json e) at m

kept_member :
    (codec : TextsCodec) (laws : TextsLaws codec) (s : List ℕ) (kept : List (List ℕ))
    → In s (texts_or_empty (decoded_texts codec (to_json_unless_empty codec kept)))
    → In s kept
kept_member codec laws s [] m = absurd m
kept_member codec laws s (k ∷ kept) m =
    written_member codec laws s (k ∷ kept) (codec.texts_to_json (k ∷ kept)) refl m

new-IsSwept :
    (codec : TextsCodec) (laws : TextsLaws codec) (texts : List (List ℕ)) (row : PeerState)
    → row.last_addrs_json ≡ to_json_unless_empty codec (without_circuits texts)
    → IsSwept codec row
new-IsSwept codec laws texts row e s m =
    without_circuits-member s texts (kept_member codec laws s (without_circuits texts) (rw e at m))

not_same : (p x : PeerState) → has_peer p.peer_y7_id x ≡ false → ¬ (x ≡ p)
not_same p x e q = ground (arith, e, ap (λ (r : PeerState). r.peer_y7_id) q)

-- A row that the update leaves alone.
other_row :
    (codec : TextsCodec) (p x : PeerState) (peers : List PeerState)
    → has_peer p.peer_y7_id x ≡ false
    → IsSwept codec x ⊎ In x (p ∷ peers)
    → IsSwept codec x ⊎ In x peers
other_row codec p x peers e (inl swept) = inl swept
other_row codec p x peers e (inr (inl q)) = absurd (not_same p x e q)
other_row codec p x peers e (inr (inr m)) = inr m

skipped_row :
    (codec : TextsCodec) (p row : PeerState) (peers : List PeerState)
    → decoded_texts codec p.last_addrs_json ≡ none
    → IsSwept codec row ⊎ In row (p ∷ peers)
    → IsSwept codec row ⊎ In row peers
skipped_row codec p row peers e (inl swept) = inl swept
skipped_row codec p row peers e (inr (inl q)) =
    inl (subst (IsSwept codec) (sym q) (λ s m. absurd (rw e at m)))
skipped_row codec p row peers e (inr (inr m)) = inr m

sweep_decoded-Pending :
    (codec : TextsCodec) (laws : TextsLaws codec) (found : Option (List (List ℕ))) (p : PeerState)
    (peers rows : List PeerState) (now : ℕ)
    → decoded_texts codec p.last_addrs_json ≡ found
    → Pending codec (p ∷ peers) rows
    → Pending codec peers (sweep_decoded codec found p.peer_y7_id now rows)
unfolding PeerStates.upsert_seen
sweep_decoded-Pending codec laws none p peers rows now e h row m =
    skipped_row codec p row peers e (h row m)
sweep_decoded-Pending codec laws (some texts) p peers rows now e h row m =
    elim (In-upsert (has_peer p.peer_y7_id) _ _ row rows m) [
      | inl q ↦ inl (new-IsSwept codec laws texts row (ap (λ (r : PeerState). r.last_addrs_json) q))
      | inr (x, i, q) ↦ elim (Bool-cases (has_peer p.peer_y7_id x)) [
        | inl same ↦ inl (new-IsSwept codec laws texts row (ground (arith, q, same)))
        | inr differs ↦
            subst (λ r. IsSwept codec r ⊎ In r peers) (sym (ground (arith, q, differs)))
              (other_row codec p x peers differs (h x i))
      ]
    ]

sweep_each-Pending :
    (codec : TextsCodec) (laws : TextsLaws codec) (peers rows : List PeerState) (now : ℕ)
    → Pending codec peers rows
    → Pending codec [] (sweep_each codec peers now rows)
unfolding sweep_each
sweep_each-Pending codec laws [] rows now h = h
sweep_each-Pending codec laws (p ∷ peers) rows now h = sweep_each-Pending codec laws peers _ now (
    sweep_decoded-Pending codec laws (decoded_texts codec p.last_addrs_json) p peers rows now refl
      h)

pub sweep-IsSwept :
    (codec : TextsCodec) (rows : List PeerState) (now : ℕ) (row : PeerState)
    → TextsLaws codec
    → In row (sweep_stale_relay_addrs codec now rows)
    → IsSwept codec row
unfolding sweep_stale_relay_addrs
sweep-IsSwept codec rows now row laws m =
    elim (sweep_each-Pending codec laws rows rows now (λ r i. inr i) row m) [
      | inl swept ↦ swept
      | inr i ↦ absurd i
    ]
