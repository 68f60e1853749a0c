-- ===== src/Messaging/Tests.antt =====
-- A concrete text and control payload, sealed and opened.
use y7ke.Bytes.{Bytes, to_be_bytes}
use y7ke.Crypto.{chat_deleted}
use y7ke.Int.{pos, ℤ}
use y7ke.Messaging.{
  MessageEnvelope, derive_conv_key, hkdf_32, open_envelope, seal_control, seal_kind, seal_outgoing,
  signed_bytes, text, timestamp_ms,
}
use y7ke.Messaging.Binding.{signed_bytes-injective}
use y7ke.Messaging.RoundTrip.{Carries, open_envelope_iff}
use y7ke.Prelude.{[], arith, refl, true, ℕ, ◌↔◌, ◌∷◌, ◌≡◌}
use y7ke.Samples.{hi, plain}
use y7ke.Status.{ok}
use y7ke.Utf8.{valid_utf8}

abbrev key32 : Bytes
key32 =
    0 ∷ 0 ∷ 0 ∷ 0 ∷ 0 ∷ 0 ∷ 0 ∷ 0 ∷ 0 ∷ 0 ∷ 0 ∷ 0 ∷ 0 ∷ 0 ∷ 0 ∷ 0 ∷ 0 ∷ 0 ∷ 0 ∷ 0 ∷ 0 ∷ 0 ∷ 0 ∷ 0
    ∷ 0 ∷ 0 ∷ 0 ∷ 0 ∷ 0 ∷ 0 ∷ 0 ∷ 0 ∷ []

abbrev sealed : Bytes → MessageEnvelope
sealed plaintext = record {
  message_id = 7;
  sender_pub = 1;
  timestamp_ms = pos 1000;
  nonce = 0;
  ciphertext = plaintext;
  sig = 1;
}

abbrev ts5 : ℤ
ts5 = pos 5

abbrev id1 : ℕ
id1 = 1

abbrev sealed_text : MessageEnvelope
sealed_text = sealed (0 ∷ hi)

abbrev sealed_control : MessageEnvelope
sealed_control = sealed (1 ∷ 2 ∷ [])

valid_hi : valid_utf8 hi ≡ true
unfolding valid_utf8
valid_hi = refl

key12 : derive_conv_key plain 1 2 [] ≡ ok key32
unfolding derive_conv_key hkdf_32
key12 = refl

key21 : derive_conv_key plain 2 1 [] ≡ ok key32
unfolding derive_conv_key hkdf_32
key21 = refl

sealed_text_lem : seal_outgoing plain 1 1 key32 hi 7 0 ≡ ok (7, sealed_text, pos 1000)
unfolding seal_outgoing seal_kind timestamp_ms
sealed_text_lem = refl

sealed_control_lem :
    seal_control plain 1 1 key32 chat_deleted 7 0 ≡ ok (7, sealed_control, pos 1000)
unfolding seal_control seal_kind timestamp_ms
sealed_control_lem = refl

open_envelope_iff_example : (open_envelope plain sealed_text 1 key32 ≡ ok (text hi)) ↔ (
    (plain.verify 1
        (signed_bytes sealed_text.message_id sealed_text.timestamp_ms sealed_text.ciphertext)
        sealed_text.sig
      ≡ true)
    × Carries plain
        (plain.decrypt key32 sealed_text.nonce sealed_text.ciphertext
          (to_be_bytes 32 sealed_text.sender_pub))
        (text hi))
open_envelope_iff_example = open_envelope_iff plain sealed_text 1 key32 (text hi)

signed_bytes-injective_example : (id1 ≡ id1) × (ts5 ≡ ts5) × (hi ≡ hi)
signed_bytes-injective_example =
    signed_bytes-injective id1 id1 ts5 ts5 hi hi (ground arith) (ground arith) (ground arith)
      (ground arith) refl
