-- ===== src/Handshake.antt =====
-- crates/y7ke-app/src/handshake.rs: session establishment. The ephemeral secret is an argument.
mod Agreement
mod Tests
use y7ke.Prelude.{ℕ, Bool, true, false, Option, none, some, List, [], ◌∷◌, ◌++◌, leb, if◌then◌else◌}
use y7ke.Bytes.{Bytes, to_be_bytes}
use y7ke.Ident.{Y7Id}
use y7ke.Status.{Result, ok, err, network, invalid_public_key, invalid_signature}
use y7ke.Crypto.{Crypto}
use y7ke.Messaging.{◌>>=◌, hkdf_32}

pub record HandshakeReq : Type 0 where
  pub initiator_ed25519_pub : ℕ
  pub initiator_eph_x25519_pub : ℕ
  pub sig : ℕ
  pub greeting : Option Bytes

pub record HandshakeResp : Type 0 where
  pub responder_eph_x25519_pub : ℕ
  pub sig : ℕ
  pub accept : Bool

-- "y7ke-session-v1"
abbrev session_kdf_info : Bytes
session_kdf_info =
    b'y' ∷ b'7' ∷ b'k' ∷ b'e' ∷ b'-' ∷ b's' ∷ b'e' ∷ b's' ∷ b's' ∷ b'i' ∷ b'o' ∷ b'n' ∷ b'-' ∷ b'v'
    ∷ b'1' ∷ []

unfoldable pub session_salt : Crypto → ℕ → ℕ → Bytes
session_salt c a b =
    c.blake3 (
      if leb a b
      then to_be_bytes 32 a ++ to_be_bytes 32 b
      else to_be_bytes 32 b ++ to_be_bytes 32 a)

-- `signed[..32]` and `signed[32..]`
abbrev pub handshake_bytes : ℕ → ℕ → Bytes
handshake_bytes eph counterparty = to_be_bytes 32 eph ++ to_be_bytes 32 counterparty

unfoldable pub open_initiator : Crypto → ℕ → ℕ → ℕ → Option Bytes → ℕ → HandshakeReq × ℕ
open_initiator c me my_pubkey peer_pubkey greeting eph = (
  record {
    initiator_ed25519_pub = my_pubkey;
    initiator_eph_x25519_pub = c.eph_public eph;
    sig = c.sign me (handshake_bytes (c.eph_public eph) peer_pubkey);
    greeting = greeting;
  },
  eph,
)

unfoldable pub finalize_initiator : Crypto → ℕ → ℕ → ℕ → HandshakeResp → Result Bytes
unfolding session_salt
finalize_initiator c my_eph my_pubkey peer_pubkey resp =
    if resp.accept
    then (if c.is_point peer_pubkey
        then (if c.verify peer_pubkey (handshake_bytes resp.responder_eph_x25519_pub my_pubkey)
              resp.sig
            then hkdf_32 c (session_salt c my_pubkey peer_pubkey)
                (c.eph_dh my_eph resp.responder_eph_x25519_pub) session_kdf_info
            else err invalid_signature)
        else err invalid_public_key)
    else err network

unfoldable pub reject_response : Crypto → ℕ → ℕ → HandshakeReq → HandshakeResp
reject_response c me my_pubkey req = record {
  responder_eph_x25519_pub = 0;
  sig = c.sign me (handshake_bytes 0 req.initiator_ed25519_pub);
  accept = false;
}

unfoldable pub respond : Crypto → ℕ → ℕ → HandshakeReq → ℕ → Result (HandshakeResp × Bytes × Y7Id)
unfolding session_salt
respond c me my_pubkey req my_eph =
    let initiator = req.initiator_ed25519_pub in
    if c.is_point initiator
    then (if c.verify initiator (handshake_bytes req.initiator_eph_x25519_pub my_pubkey) req.sig
        then (do
          key ←
              hkdf_32 c (session_salt c initiator my_pubkey)
                (c.eph_dh my_eph req.initiator_eph_x25519_pub) session_kdf_info
          ok (
            record {
              responder_eph_x25519_pub = c.eph_public my_eph;
              sig = c.sign me (handshake_bytes (c.eph_public my_eph) initiator);
              accept = true;
            },
            key,
            initiator,
          ))
        else err invalid_signature)
    else err invalid_public_key
