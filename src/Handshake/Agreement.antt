-- ===== src/Handshake/Agreement.antt =====
-- The two sides agree, and neither accepts what was not signed for it.
use y7ke.Prelude.{ℕ, ◌^◌, ◌<◌, ◌≡◌, true, ◌∙◌, sym, ◌↔◌, Option, arith}
use y7ke.Bytes.{Bytes, to_be_bytes, length-to_be_bytes, to_be_bytes-injective, append_cancel}
use y7ke.Ident.{Y7Id}
use y7ke.Status.{ok, err, network}
use y7ke.Crypto.{Crypto, CryptoLaws}
use y7ke.Handshake.{
  HandshakeReq, HandshakeResp, session_salt, handshake_bytes, open_initiator, finalize_initiator,
  reject_response, respond,
}

session_salt_comm : (c : Crypto) (a b : ℕ) → session_salt c a b ≡ session_salt c b a
unfolding session_salt
session_salt_comm c a b = ground arith

module _ (c : Crypto) (laws : CryptoLaws c) where
  -- When the responder accepts an initiator's request, the initiator accepts the response, both hold
  -- the same session key, and the responder knows the initiator by its key. A rejection is refused.
  pub handshake_agrees :
      (a b eph_a eph_b : ℕ) (greeting : Option Bytes) (resp : HandshakeResp) (key : Bytes)
      (id : Y7Id)
      → respond c b
          (c.verifying_key b)
          (open_initiator c a (c.verifying_key a) (c.verifying_key b) greeting eph_a).0
          eph_b
        ≡ ok (resp, key, id)
      → (finalize_initiator c eph_a (c.verifying_key a) (c.verifying_key b) resp ≡ ok key)
        × (id ≡ c.verifying_key a)
        × (finalize_initiator c eph_a (c.verifying_key a) (c.verifying_key b) (
              reject_response c b
                (c.verifying_key b)
                (open_initiator c a (c.verifying_key a) (c.verifying_key b) greeting eph_a).0)
            ≡ err network)
  unfolding open_initiator respond finalize_initiator reject_response
  handshake_agrees a b eph_a eph_b greeting resp key id h = ground (
    arith,
    laws.is_point-verifying_key a,
    laws.is_point-verifying_key b,
    laws.verify-sign a (handshake_bytes (c.eph_public eph_a) (c.verifying_key b)),
    laws.verify-sign b (handshake_bytes (c.eph_public eph_b) (c.verifying_key a)),
    laws.eph_dh_comm eph_a eph_b,
    session_salt_comm c (c.verifying_key a) (c.verifying_key b),
  )

-- A responder accepts only a request whose signature covers the initiator's ephemeral key and the
-- responder's own key. Of 32-byte values, the bytes so signed are those of no other ephemeral key and
-- of no other responder.
pub respond_bound :
    (c : Crypto) (me my_pubkey eph other_eph other : ℕ) (req : HandshakeReq) (resp : HandshakeResp)
    (key : Bytes) (id : Y7Id)
    → req.initiator_eph_x25519_pub < 256 ^ 32
    → other_eph < 256 ^ 32
    → my_pubkey < 256 ^ 32
    → other < 256 ^ 32
    → respond c me my_pubkey req eph ≡ ok (resp, key, id)
    → (c.verify req.initiator_ed25519_pub
          (handshake_bytes req.initiator_eph_x25519_pub my_pubkey)
          req.sig
        ≡ true)
      × (id ≡ req.initiator_ed25519_pub)
      × (resp.accept ≡ true)
      × ((handshake_bytes other_eph other ≡ handshake_bytes req.initiator_eph_x25519_pub my_pubkey)
          ↔ ((other_eph ≡ req.initiator_eph_x25519_pub) × (other ≡ my_pubkey)))
unfolding respond
respond_bound c me my_pubkey eph other_eph other req resp key id he ho hm hn h = (
  ground arith,
  ground arith,
  ground arith,
  (
    λ e.
        let (ephs, keys) =
          append_cancel (to_be_bytes 32 other_eph) (to_be_bytes 32 other)
            (to_be_bytes 32 req.initiator_eph_x25519_pub) (to_be_bytes 32 my_pubkey)
            (length-to_be_bytes 32 other_eph
              ∙ sym (length-to_be_bytes 32 req.initiator_eph_x25519_pub))
            e in
        (
          to_be_bytes-injective 32 other_eph req.initiator_eph_x25519_pub ho he ephs,
          to_be_bytes-injective 32 other my_pubkey hn hm keys,
        ),
    λ e. cc,
  ),
)
