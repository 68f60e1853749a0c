-- ===== src/Messaging.antt =====
-- crates/y7ke-app/src/messaging.rs, with the envelope of crates/y7ke-net/src/protocol.rs and the
-- AEAD wrapper of crates/y7ke-core/src/crypto/aead.rs.
pub mod RoundTrip
mod Binding
mod Tests
use y7ke.Prelude.{
  ℕ, ◌+◌, ◌*◌, ◌/◌, Bool, not, Option, none, some, List, [], ◌∷◌, ◌++◌, ◌==◌, if◌then◌else◌, length,
}
use y7ke.Bytes.{Bytes, to_be_bytes}
use y7ke.Int.{ℤ, pos, i64_to_le_bytes}
use y7ke.Utf8.{valid_utf8}
use y7ke.Ident.{MessageId}
use y7ke.Status.{
  Result, ok, err, crypto, serialization, invalid_signature, invalid_public_key, AppError,
}
use y7ke.Crypto.{Crypto, ControlPayload, to_x25519_scalar}

pub record MessageEnvelope : Type 0 where
  pub message_id : MessageId
  pub sender_pub : ℕ
  pub timestamp_ms : ℤ
  pub nonce : ℕ
  pub ciphertext : Bytes
  pub sig : ℕ

pub data PlaintextKind : Type 0 where
  text : Bytes → PlaintextKind
  control : ControlPayload → PlaintextKind

abbrev pub tag_text : ℕ
tag_text = 0

abbrev pub tag_control : ℕ
tag_control = 1

-- "y7ke-conv-v1"
abbrev pub conv_kdf_info : Bytes
conv_kdf_info =
    b'y' ∷ b'7' ∷ b'k' ∷ b'e' ∷ b'-' ∷ b'c' ∷ b'o' ∷ b'n' ∷ b'v' ∷ b'-' ∷ b'v' ∷ b'1' ∷ []

infixl 5 ◌>>=◌
abbrev pub ◌>>=◌ {ℓ κ} : {A : Type ℓ} {B : Type κ} → Result A → (A → Result B) → Result B
ok a >>= f = f a
err e >>= f = err e

abbrev pub or_fail {ℓ} : {A : Type ℓ} → Option A → AppError → Result A
or_fail none e = err e
or_fail (some a) e = ok a

unfoldable pub signed_bytes : MessageId → ℤ → Bytes → Bytes
signed_bytes id ts ciphertext = to_be_bytes 16 id ++ (i64_to_le_bytes ts ++ ciphertext)

-- `hkdf_sha256(..)` with `try_into::<[u8; 32]>`
unfoldable pub hkdf_32 : Crypto → Bytes → Bytes → Bytes → Result Bytes
hkdf_32 c salt ikm info = do
  okm ← or_fail (c.hkdf_expand salt ikm info 32) crypto
  if length okm == 32 then ok okm else err crypto

unfoldable pub derive_conv_key : Crypto → ℕ → ℕ → Bytes → Result Bytes
unfolding hkdf_32
derive_conv_key c me peer_pub conv_id =
    if c.is_point peer_pub
    then hkdf_32 c conv_id (c.static_dh (to_x25519_scalar c me) (c.to_montgomery peer_pub))
        conv_kdf_info
    else err invalid_public_key

-- `MessageId::timestamp_ms`
unfoldable pub timestamp_ms : Crypto → MessageId → Option ℤ
timestamp_ms c id = elim (c.uuid_timestamp id) [
  | none ↦ none
  | some (secs, nanos) ↦ some (pos (secs * 1000 + nanos / 1000000))
]

-- The fresh id and the nonce are arguments; the ciphertext's associated data is the sender's key.
unfoldable pub seal_kind :
    Crypto → ℕ → ℕ → Bytes → Bytes → MessageId → ℕ → Result (MessageId × MessageEnvelope × ℤ)
unfolding timestamp_ms
seal_kind c me my_pubkey key plaintext id nonce = do
  ts ← or_fail (timestamp_ms c id) crypto
  ciphertext ← or_fail (c.encrypt key nonce plaintext (to_be_bytes 32 my_pubkey)) crypto
  ok (
    id,
    record {
      message_id = id;
      sender_pub = my_pubkey;
      timestamp_ms = ts;
      nonce = nonce;
      ciphertext = ciphertext;
      sig = c.sign me (signed_bytes id ts ciphertext);
    },
    ts,
  )

unfoldable pub seal_outgoing :
    Crypto → ℕ → ℕ → Bytes → Bytes → MessageId → ℕ → Result (MessageId × MessageEnvelope × ℤ)
seal_outgoing c me my_pubkey key body id nonce =
    seal_kind c me my_pubkey key (tag_text ∷ body) id nonce

unfoldable pub seal_control :
    Crypto
    → ℕ
    → ℕ
    → Bytes
    → ControlPayload
    → MessageId
    → ℕ
    → Result (MessageId × MessageEnvelope × ℤ)
seal_control c me my_pubkey key payload id nonce = do
  json ← or_fail (c.control_to_json payload) serialization
  seal_kind c me my_pubkey key (tag_control ∷ json) id nonce

-- The `match plaintext[0]`
unfoldable pub split_tag : Crypto → Bytes → Result PlaintextKind
split_tag c [] = err crypto
split_tag c (tag ∷ body) =
    if tag == tag_text
    then (if valid_utf8 body then ok (text body) else err crypto)
    else if tag == tag_control
    then (do p ← or_fail (c.control_from_json body) serialization; ok (control p))
    else err crypto

unfoldable pub open_envelope : Crypto → MessageEnvelope → ℕ → Bytes → Result PlaintextKind
unfolding split_tag
open_envelope c env sender key =
    if c.verify sender (signed_bytes env.message_id env.timestamp_ms env.ciphertext) env.sig
    then (do
      plaintext ←
          or_fail (c.decrypt key env.nonce env.ciphertext (to_be_bytes 32 env.sender_pub)) crypto
      split_tag c plaintext)
    else err invalid_signature
