-- ===== src/Config/Expanded.antt =====
-- The forms of a descriptor.
use y7ke.Config.{expand_bootstrap, expand_pieces, is_shorthand, quic_form, slash, tcp_form}
use y7ke.Text.{codes, is_whitespace}
use y7ke.Text.Split.{All-join, IsPlain, join, split-join, trim-kept}
use mathlib.Core.List.{append-nil, append_assoc}
use y7ke.Prelude.{All, List, [], refl, true, ℕ, ◌∙◌, ◌∷◌, ◌≡◌}

-- The pieces of a descriptor without its transport.
abbrev pub shorthand : List ℕ → List ℕ → List ℕ → List ℕ → List ℕ
shorthand net host port id = join slash (net ∷ host ∷ port ∷ codes "p2p" ∷ id ∷ [])

abbrev tcp_pieces : List ℕ → List ℕ → List ℕ → List ℕ → List (List ℕ)
tcp_pieces net host port id = net ∷ host ∷ codes "tcp" ∷ port ∷ codes "p2p" ∷ id ∷ []

abbrev quic_pieces : List ℕ → List ℕ → List ℕ → List ℕ → List (List ℕ)
quic_pieces net host port id =
    net ∷ host ∷ codes "udp" ∷ port ∷ codes "quic-v1" ∷ codes "p2p" ∷ id ∷ []

tcp_form-join :
    (net host port id : List ℕ)
    → tcp_form net host port id ≡ join slash (tcp_pieces net host port id)
tcp_form-join net host port id = simp (append_assoc, append-nil)

expand-join :
    (ps : List (List ℕ))
    → All (IsPlain slash) ps
    → expand_bootstrap (join slash ps) ≡ expand_pieces (join slash ps) ([] ∷ ps)
unfolding expand_bootstrap is_whitespace
expand-join ps h =
    rw (trim-kept (join slash ps) (All-join slash ps refl h)) (rw (split-join slash ps h))

quic_form-join :
    (net host port id : List ℕ)
    → quic_form net host port id ≡ join slash (quic_pieces net host port id)
quic_form-join net host port id = simp (append_assoc, append-nil)

p2p-IsPlain : IsPlain slash (codes "p2p")
unfolding is_whitespace
p2p-IsPlain = (refl, refl, (refl, refl, (refl, refl, tt)))

tcp-IsPlain : IsPlain slash (codes "tcp")
unfolding is_whitespace
tcp-IsPlain = (refl, refl, (refl, refl, (refl, refl, tt)))

udp-IsPlain : IsPlain slash (codes "udp")
unfolding is_whitespace
udp-IsPlain = (refl, refl, (refl, refl, (refl, refl, tt)))

quic_v1-IsPlain : IsPlain slash (codes "quic-v1")
unfolding is_whitespace
quic_v1-IsPlain = (
  refl,
  refl,
  (refl, refl, (refl, refl, (refl, refl, (refl, refl, (refl, refl, (refl, refl, tt)))))),
)

-- A descriptor that names no transport stands for two: the forms of it over TCP and over QUIC, and each
-- of them stands for itself. Its pieces hold no space and no slash, its network is one of the five
-- known, and its port is of digits.
pub expand_bootstrap-forms :
    (net host port id : List ℕ)
    → All (IsPlain slash) (net ∷ host ∷ port ∷ id ∷ [])
    → is_shorthand net host port (codes "p2p") id ≡ true
    → let tcp = tcp_form net host port id in
      let quic = quic_form net host port id in
      (expand_bootstrap (shorthand net host port id) ≡ tcp ∷ quic ∷ [])
      × (expand_bootstrap tcp ≡ tcp ∷ [])
      × (expand_bootstrap quic ≡ quic ∷ [])
unfolding expand_pieces
expand_bootstrap-forms net host port id h s =
    let (n, rest) = h in
    let (o, rest') = rest in
    let (p, rest'') = rest' in
    let tcp_plain : All (IsPlain slash) (tcp_pieces net host port id) =
      (n, (o, (tcp-IsPlain, (p, (p2p-IsPlain, (rest''.0, tt)))))) in
    let quic_plain : All (IsPlain slash) (quic_pieces net host port id) =
      (n, (o, (udp-IsPlain, (p, (quic_v1-IsPlain, (p2p-IsPlain, (rest''.0, tt))))))) in
    (
      expand-join (net ∷ host ∷ port ∷ codes "p2p" ∷ id ∷ [])
            (n, (o, (p, (p2p-IsPlain, (rest''.0, tt)))))
          ∙ rw s,
      rw (tcp_form-join net host port id) (expand-join (tcp_pieces net host port id) tcp_plain),
      rw (quic_form-join net host port id) (expand-join (quic_pieces net host port id) quic_plain),
    )
