-- ===== src/Ident/Uri.antt =====
-- Identifiers printed and read back, and the conversation of a pair.
use y7ke.Prelude.{◌^◌, ◌<◌, ◌≡◌, some, arith, ap, length}
use y7ke.Ident.{Y7Id, Base58, to_uri, parse, between}
use y7ke.Bytes.{Bytes, to_be_bytes, length-to_be_bytes, from_be_bytes-to_be_bytes}
use y7ke.Status.{ok}

-- A 32-byte key that is printed as a URI is read back as it was, where base58 decodes what it
-- encodes.
parse-to_uri :
    (b58 : Base58)
    → ((bs : Bytes) → length bs ≡ 32 → b58.decode_onto (b58.encode bs) ≡ some bs)
    → (y7 : Y7Id) → y7 < 256 ^ 32
    → parse b58 (to_uri b58 y7) ≡ ok y7
unfolding parse to_uri
parse-to_uri b58 back y7 h =
    rw (back (to_be_bytes 32 y7) (length-to_be_bytes 32 y7))
      (rw (length-to_be_bytes 32 y7) (ap ok (from_be_bytes-to_be_bytes 32 y7 h)))

-- Both peers compute one identifier of their conversation, whoever calls.
pub between_comm : (blake3 : Bytes → Bytes) (a b : Y7Id) → between blake3 a b ≡ between blake3 b a
unfolding between
between_comm blake3 a b = ground arith
