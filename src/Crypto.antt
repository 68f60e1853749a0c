-- ===== src/Crypto.antt =====
-- The primitives that the source takes from other crates (ed25519-dalek, x25519-dalek, sha2, hkdf,
-- chacha20poly1305, blake3, uuid, serde_json), as one record, with the laws that the theorems
-- assume of them; and the parts of crates/y7ke-core/src/crypto that the source computes itself.
-- A key or a signature is the number that its bytes spell; random values are arguments.
use Prim.Native.Nat.{bit_and, bit_or}
use y7ke.Prelude.{ℕ, zero, suc, ◌≡◌, true, Bool, Option, some, [], ◌∷◌, take}
use y7ke.Bytes.{Bytes, to_be_bytes}

-- crates/y7ke-app/src/messaging.rs
pub data ControlPayload : Type 0 where
  rejected_request accepted_request chat_deleted : ControlPayload

pub record Crypto : Type 0 where
  pub verifying_key : ℕ → ℕ
  pub is_point : ℕ → Bool
  pub sign : ℕ → Bytes → ℕ
  pub verify : ℕ → Bytes → ℕ → Bool
  pub to_montgomery : ℕ → ℕ
  pub sha512 : Bytes → Bytes
  pub static_dh : Bytes → ℕ → Bytes
  pub eph_public : ℕ → ℕ
  pub eph_dh : ℕ → ℕ → Bytes
  pub hkdf_expand : Bytes → Bytes → Bytes → ℕ → Option Bytes
  pub encrypt : Bytes → ℕ → Bytes → Bytes → Option Bytes
  pub decrypt : Bytes → ℕ → Bytes → Bytes → Option Bytes
  pub blake3 : Bytes → Bytes
  pub uuid_timestamp : ℕ → Option (ℕ × ℕ)
  pub control_to_json : ControlPayload → Option Bytes
  pub control_from_json : Bytes → Option ControlPayload

-- `scalar[0] &= 248; scalar[31] &= 127; scalar[31] |= 64`
clamp_last : ℕ → Bytes → Bytes
clamp_last n [] = []
clamp_last zero (b ∷ bs) = bit_or (bit_and b 127) 64 ∷ bs
clamp_last (suc n) (b ∷ bs) = b ∷ clamp_last n bs

clamp : Bytes → Bytes
unfolding clamp_last
clamp [] = []
clamp (b ∷ bs) = bit_and b 248 ∷ clamp_last 30 bs

-- `SigningKey::to_x25519_scalar`
unfoldable pub to_x25519_scalar : Crypto → ℕ → Bytes
unfolding clamp
to_x25519_scalar c me = clamp (take 32 (c.sha512 (to_be_bytes 32 me)))

-- What the crates document of these primitives.
pub record CryptoLaws (c : Crypto) : Type 0 where
  pub verify-sign :
      (sk : ℕ) (msg : Bytes) → c.verify (c.verifying_key sk) msg (c.sign sk msg) ≡ true
  pub is_point-verifying_key : (sk : ℕ) → c.is_point (c.verifying_key sk) ≡ true
  pub decrypt-encrypt :
      (key : Bytes) (nonce : ℕ) (msg aad ct : Bytes)
      → c.encrypt key nonce msg aad ≡ some ct
      → c.decrypt key nonce ct aad ≡ some msg
  pub static_dh_comm :
      (a b : ℕ)
      → c.static_dh (to_x25519_scalar c a) (c.to_montgomery (c.verifying_key b))
        ≡ c.static_dh (to_x25519_scalar c b) (c.to_montgomery (c.verifying_key a))
  pub eph_dh_comm : (a b : ℕ) → c.eph_dh a (c.eph_public b) ≡ c.eph_dh b (c.eph_public a)
  pub from_json-to_json :
      (p : ControlPayload) (bs : Bytes)
      → c.control_to_json p ≡ some bs
      → c.control_from_json bs ≡ some p
