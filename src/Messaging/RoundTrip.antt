-- ===== src/Messaging/RoundTrip.antt =====
-- What one peer seals the other opens, and what is opened was signed and sealed.
use y7ke.Prelude.{
  ℕ, ◌≡◌, refl, true, Option, none, some, arith, inl, inr, Option-cases, ◌↔◌, Bool-cases, [], ◌∷◌,
}
use y7ke.Bytes.{Bytes, to_be_bytes}
use y7ke.Int.{ℤ}
use y7ke.Utf8.{valid_utf8}
use y7ke.Status.{ok, crypto}
use y7ke.Crypto.{Crypto, CryptoLaws, ControlPayload}
use y7ke.Messaging.{
  MessageEnvelope, PlaintextKind, text, control, tag_text, tag_control, signed_bytes,
  derive_conv_key, seal_kind, seal_outgoing, seal_control, split_tag, open_envelope, ◌>>=◌, or_fail,
}

module _ (c : Crypto) (laws : CryptoLaws c) where
  -- Both peers derive one conversation key.
  pub derive_conv_key_comm :
      (a b : ℕ) (conv_id : Bytes)
      → derive_conv_key c a (c.verifying_key b) conv_id
        ≡ derive_conv_key c b (c.verifying_key a) conv_id
  unfolding derive_conv_key
  derive_conv_key_comm a b conv_id =
      rw (laws.is_point-verifying_key a, laws.is_point-verifying_key b, laws.static_dh_comm a b)

  -- A sealed plaintext comes out of the envelope again.
  open-seal_kind :
      (me : ℕ) (key plaintext : Bytes) (id nonce : ℕ) (env : MessageEnvelope) (ts : ℤ)
      → seal_kind c me (c.verifying_key me) key plaintext id nonce ≡ ok (id, env, ts)
      → open_envelope c env (c.verifying_key me) key ≡ split_tag c plaintext
  unfolding seal_kind open_envelope
  open-seal_kind me key plaintext id nonce env ts h = ground (
    arith,
    laws.verify-sign me (signed_bytes id ts env.ciphertext),
    laws.decrypt-encrypt key nonce plaintext (to_be_bytes 32 (c.verifying_key me)) env.ciphertext,
  )

  -- A text that one peer seals under the conversation key that it derives is opened by the other,
  -- under the key that that one derives, as the same text.
  pub open_envelope-seal_outgoing :
      (a b : ℕ) (conv_id key_a key_b body : Bytes) (id nonce : ℕ) (env : MessageEnvelope) (ts : ℤ)
      → valid_utf8 body ≡ true
      → derive_conv_key c a (c.verifying_key b) conv_id ≡ ok key_a
      → derive_conv_key c b (c.verifying_key a) conv_id ≡ ok key_b
      → seal_outgoing c a (c.verifying_key a) key_a body id nonce ≡ ok (id, env, ts)
      → open_envelope c env (c.verifying_key a) key_b ≡ ok (text body)
  unfolding seal_outgoing split_tag
  open_envelope-seal_outgoing a b conv_id key_a key_b body id nonce env ts u ha hb h = ground (
    arith,
    derive_conv_key_comm a b conv_id,
    open-seal_kind a key_b (tag_text ∷ body) id nonce env ts,
  )

  -- The same for a control payload.
  pub open_envelope-seal_control :
      (a b : ℕ) (conv_id key_a key_b : Bytes) (p : ControlPayload) (id nonce : ℕ)
      (env : MessageEnvelope) (ts : ℤ)
      → derive_conv_key c a (c.verifying_key b) conv_id ≡ ok key_a
      → derive_conv_key c b (c.verifying_key a) conv_id ≡ ok key_b
      → seal_control c a (c.verifying_key a) key_a p id nonce ≡ ok (id, env, ts)
      → open_envelope c env (c.verifying_key a) key_b ≡ ok (control p)
  unfolding seal_control split_tag
  open_envelope-seal_control a b conv_id key_a key_b p id nonce env ts ha hb h =
      elim (Option-cases (c.control_to_json p)) [
        | inl e ↦ ground (arith, e)
        | inr (json, e) ↦ ground (
          arith,
          e,
          laws.from_json-to_json p json,
          derive_conv_key_comm a b conv_id,
          open-seal_kind a key_b (tag_control ∷ json) id nonce env ts,
        )
      ]

-- The plaintext that stands for a payload: a text behind tag 0, a control payload behind tag 1.
abbrev pub Carries : Crypto → Option Bytes → PlaintextKind → Type 0
Carries c plaintext (text body) = (plaintext ≡ some (tag_text ∷ body)) × (valid_utf8 body ≡ true)
Carries c plaintext (control p) =
    (json : Bytes) × (plaintext ≡ some (tag_control ∷ json)) × (c.control_from_json json ≡ some p)

split_tag_iff :
    (c : Crypto) (plaintext : Bytes) (kind : PlaintextKind)
    → (split_tag c plaintext ≡ ok kind) ↔ Carries c (some plaintext) kind
unfolding split_tag
split_tag_iff c [] (text body) = (λ h. cc, λ h. ground arith)
split_tag_iff c [] (control p) = (λ h. cc, λ h. ground (arith, h.1))
split_tag_iff c (tag ∷ rest) (text body) = (λ h. ground arith, λ h. ground arith)
split_tag_iff c (tag ∷ rest) (control p) =
    (λ h. (rest, ground arith, ground arith), λ h. ground (arith, h.1, h.2))

opens_iff :
    (c : Crypto) (plaintext : Option Bytes) (kind : PlaintextKind)
    → ((or_fail plaintext crypto >>= split_tag c) ≡ ok kind) ↔ Carries c plaintext kind
opens_iff c none (text body) = (λ h. cc, λ h. ground arith)
opens_iff c none (control p) = (λ h. cc, λ h. ground (arith, h.1))
opens_iff c (some plaintext) kind = split_tag_iff c plaintext kind

-- An envelope opens as a payload exactly when the sender's key verifies its signature over its id,
-- its time and its ciphertext, and its ciphertext decrypts, under the conversation's key and bound
-- to the sender's key, to the plaintext that stands for the payload.
pub open_envelope_iff :
    (c : Crypto) (env : MessageEnvelope) (sender : ℕ) (key : Bytes) (kind : PlaintextKind)
    → (open_envelope c env sender key ≡ ok kind) ↔ (
        (c.verify sender (signed_bytes env.message_id env.timestamp_ms env.ciphertext) env.sig
          ≡ true)
        × Carries c (c.decrypt key env.nonce env.ciphertext (to_be_bytes 32 env.sender_pub)) kind)
unfolding open_envelope
open_envelope_iff c env sender key kind =
    elim (Bool-cases
      (c.verify sender (signed_bytes env.message_id env.timestamp_ms env.ciphertext) env.sig)) [
        | inl e ↦
            let (mp, mpr) =
              opens_iff c (c.decrypt key env.nonce env.ciphertext (to_be_bytes 32 env.sender_pub))
                kind in
            rw (e, open_envelope) (λ h. (refl, mp h), λ h. mpr h.1)
        | inr e ↦ rw (e, open_envelope) (λ h. cc, λ h. cc h.0)
      ]
