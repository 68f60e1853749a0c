-- ===== src/Handshake/Tests.antt =====
-- A concrete handshake.
use y7ke.Bytes.{Bytes}
use y7ke.Handshake.{
  HandshakeReq, HandshakeResp, finalize_initiator, handshake_bytes, open_initiator, reject_response,
  respond,
}
use y7ke.Handshake.Agreement.{handshake_agrees, respond_bound}
use y7ke.Messaging.{hkdf_32}
use y7ke.Prelude.{[], arith, none, refl, true, ℕ, ◌↔◌, ◌∷◌, ◌≡◌}
use y7ke.Samples.{plain, plain-CryptoLaws}
use y7ke.Status.{err, network, ok}

abbrev key32 : Bytes
key32 =
    0 ∷ 0 ∷ 0 ∷ 0 ∷ 0 ∷ 0 ∷ 0 ∷ 0 ∷ 0 ∷ 0 ∷ 0 ∷ 0 ∷ 0 ∷ 0 ∷ 0 ∷ 0 ∷ 0 ∷ 0 ∷ 0 ∷ 0 ∷ 0 ∷ 0 ∷ 0 ∷ 0
    ∷ 0 ∷ 0 ∷ 0 ∷ 0 ∷ 0 ∷ 0 ∷ 0 ∷ 0 ∷ []

abbrev accepting : HandshakeResp
accepting = record { responder_eph_x25519_pub = 4; sig = 2; accept = true }

abbrev stranger : ℕ
stranger = 9

abbrev request1 : HandshakeReq
request1 = record {
  initiator_ed25519_pub = 1;
  initiator_eph_x25519_pub = 3;
  sig = 1;
  greeting = none;
}

accepting_lem : respond plain 2 2 request1 4 ≡ ok (accepting, key32, 1)
unfolding respond open_initiator hkdf_32
accepting_lem = refl

answered_lem : respond plain 2 2 (open_initiator plain 1 1 2 none 3).0 4 ≡ ok (accepting, key32, 1)
unfolding respond open_initiator hkdf_32
answered_lem = refl

handshake_agrees_example :
    (finalize_initiator plain 3 (plain.verifying_key 1) (plain.verifying_key 2) accepting
      ≡ ok key32)
    × (1 ≡ plain.verifying_key 1)
    × (finalize_initiator plain 3 (plain.verifying_key 1) (plain.verifying_key 2) (
          reject_response plain 2
            (plain.verifying_key 2)
            (open_initiator plain 1 (plain.verifying_key 1) (plain.verifying_key 2) none 3).0)
        ≡ err network)
handshake_agrees_example =
    handshake_agrees plain plain-CryptoLaws 1 2 3 4 none accepting key32 1 answered_lem

respond_bound_example :
    (plain.verify request1.initiator_ed25519_pub
        (handshake_bytes request1.initiator_eph_x25519_pub 2)
        request1.sig
      ≡ true)
    × (1 ≡ request1.initiator_ed25519_pub)
    × (accepting.accept ≡ true)
    × ((handshake_bytes stranger stranger ≡ handshake_bytes request1.initiator_eph_x25519_pub 2)
        ↔ ((stranger ≡ request1.initiator_eph_x25519_pub) × (stranger ≡ 2)))
respond_bound_example =
    respond_bound plain 2 2 4 stranger stranger request1 accepting key32 1 (ground arith)
      (ground arith) (ground arith) (ground arith) accepting_lem
