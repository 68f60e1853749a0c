-- ===== src/Ident.antt =====
-- crates/y7ke-core/src/id.rs: the identifiers. A fixed-size array of bytes stands as the number
-- that it spells in big-endian order, so that the lexicographic order of arrays of one length, by
-- which the source and SQLite compare identifiers, is the order of the numbers.
mod Uri
use y7ke.Prelude.{
  ℕ, List, [], ◌∷◌, ◌++◌, Option, none, some, leb, ◌==◌, if◌then◌else◌, length, take, String,
}
use y7ke.Status.{Result, ok, err, invalid_y7_id, invalid_public_key}
use y7ke.Bytes.{Bytes, to_be_bytes, from_be_bytes}

-- `Y7Id { pubkey: [u8; 32] }`
abbrev pub Y7Id : Type 0
Y7Id = ℕ

-- `MessageId(Uuid)`, 16 bytes
abbrev pub MessageId : Type 0
MessageId = ℕ

-- `ConversationId([u8; 16])`
abbrev pub ConversationId : Type 0
ConversationId = ℕ

-- "y7:"
abbrev pub uri_prefix : Bytes
uri_prefix = b'y' ∷ b'7' ∷ b':' ∷ []

-- `bs58::encode(..).into_string()` and `bs58::decode(..).onto(&mut [0u8; 32])`, which fails on a
-- character outside the alphabet and on more than 32 bytes, and else gives the bytes written.
pub record Base58 : Type 0 where
  pub encode : Bytes → Bytes
  pub decode_onto : Bytes → Option Bytes

unfoldable pub to_uri : Base58 → Y7Id → Bytes
to_uri b58 y7 = uri_prefix ++ b58.encode (to_be_bytes 32 y7)

-- `str::strip_prefix(Y7Id::URI_PREFIX)`
strip_prefix : Bytes → Option Bytes
strip_prefix (a ∷ b ∷ c ∷ body) =
    if a == b'y'
    then (if b == b'7' then (if c == b':' then some body else none) else none)
    else none
strip_prefix _ = none

parse_body : Option Bytes → Result Y7Id
parse_body none = err invalid_y7_id
parse_body (some buf) = if length buf == 32 then ok (from_be_bytes buf) else err invalid_y7_id

unfoldable pub parse : Base58 → Bytes → Result Y7Id
unfolding strip_prefix parse_body
parse b58 s = elim (strip_prefix s) [
  | none ↦ err invalid_y7_id
  | some body ↦ parse_body (b58.decode_onto body)
]

-- The blake3 digest of the two keys in order: 32 bytes, of which an identifier takes 16.
unfoldable pub between : (Bytes → Bytes) → Y7Id → Y7Id → ConversationId
between blake3 a b =
    let digest = blake3 (
      if leb a b
      then to_be_bytes 32 a ++ to_be_bytes 32 b
      else to_be_bytes 32 b ++ to_be_bytes 32 a) in
    from_be_bytes (take 16 digest)
