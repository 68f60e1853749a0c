-- ===== src/Commands/Sending/Opened.antt =====
-- What one app sends another opens.
use y7ke.Prelude.{ℕ, ◌≡◌, refl, ◌∙◌, sym, ap, true, arith}
use y7ke.Bytes.{Bytes, to_be_bytes}
use y7ke.Int.{ℤ}
use y7ke.Utf8.{valid_utf8}
use y7ke.Ident.{MessageId, between}
use y7ke.Status.{Result, ok, err}
use y7ke.Crypto.{CryptoLaws, Crypto}
use y7ke.Messaging.{MessageEnvelope, text, derive_conv_key, seal_outgoing, seal_kind}
use y7ke.Messaging.RoundTrip.{open_envelope-seal_outgoing, derive_conv_key_comm}
use y7ke.App.{App, Env}
use y7ke.EventLoop.{Times}
use y7ke.EventLoop.Inbox.{open_from}
use y7ke.Commands.{Fresh}
use y7ke.Commands.Sending.{send_message, seal_text}

-- The app that has a secret key.
abbrev pub env_of : Env → ℕ → Env
env_of env sk = record env { me = sk; my_pubkey = env.crypto.verifying_key sk }

sealed_sender :
    (c : Crypto) (me my : ℕ) (key body : Bytes) (id nonce : ℕ) (x : MessageId × MessageEnvelope × ℤ)
    → seal_outgoing c me my key body id nonce ≡ ok x
    → (x.1.sender_pub ≡ my) × (x.0 ≡ id)
unfolding seal_outgoing seal_kind
sealed_sender c me my key body id nonce x h = ground (arith, h)

module _ (env : Env) (laws : CryptoLaws env.crypto) where
  seal_text-opens :
      (a b : ℕ) (body : Bytes) (fresh : Fresh) (x : MessageId × MessageEnvelope × ℤ)
      → valid_utf8 body ≡ true
      → seal_text (env_of env a) (env.crypto.verifying_key b) body fresh ≡ ok x
      → open_from (env_of env b) x.1 ≡ ok (text body)
  unfolding seal_text open_from
  seal_text-opens a b body fresh x u h =
      go (derive_conv_key env.crypto a (env.crypto.verifying_key b) conv) refl
    where
      conv : Bytes
      conv =
          to_be_bytes 16
            (between env.crypto.blake3 (env.crypto.verifying_key a) (env.crypto.verifying_key b))

      go :
          (r : Result Bytes)
          → derive_conv_key env.crypto a (env.crypto.verifying_key b) conv ≡ r
          → open_from (env_of env b) x.1 ≡ ok (text body)
      go (err e) p = ground (arith, h, p)
      go (ok key) p =
          let sealed : seal_outgoing env.crypto a (env.crypto.verifying_key a) key body fresh.id
                fresh.nonce
              ≡ ok x =
            ground (arith, h, p) in
          let (sender, id) =
            sealed_sender env.crypto a (env.crypto.verifying_key a) key body fresh.id fresh.nonce x
              sealed in
          let mirrored : derive_conv_key env.crypto b (env.crypto.verifying_key a) conv ≡ ok key =
            sym (derive_conv_key_comm env.crypto laws a b conv) ∙ p in
          let opened =
            open_envelope-seal_outgoing env.crypto laws a b conv key key body fresh.id fresh.nonce
              x.1 x.2 u p mirrored (sealed ∙ ap (λ i. ok (i, x.1, x.2)) id) in
          ground (arith, sender, mirrored, opened, laws.is_point-verifying_key a)

  -- What `send_message` seals for a peer, the peer's app opens as the text that was sent, where both
  -- are given the same primitives and these satisfy their laws.
  pub send_message-opens :
      (a b : ℕ) (body : Bytes) (fresh : Fresh) (t : Times) (s : App) (id : MessageId)
      (e : MessageEnvelope)
      → valid_utf8 body ≡ true
      → (send_message (env_of env a) (env.crypto.verifying_key b) body fresh t s).0 ≡ ok (id, e)
      → open_from (env_of env b) e ≡ ok (text body)
  unfolding send_message
  send_message-opens a b body fresh t s id e u h =
      go (seal_text (env_of env a) (env.crypto.verifying_key b) body fresh) refl
    where
      go :
          (r : Result (MessageId × MessageEnvelope × ℤ))
          → seal_text (env_of env a) (env.crypto.verifying_key b) body fresh ≡ r
          → open_from (env_of env b) e ≡ ok (text body)
      go (err x) p = ground (arith, h, p)
      go (ok x) p =
          let same : x.1 ≡ e = ground (arith, h, p) in
          ap (open_from (env_of env b)) (sym same) ∙ seal_text-opens a b body fresh x u p
