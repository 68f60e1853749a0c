-- ===== src/Messaging/Binding.antt =====
-- What a signature commits to.
use y7ke.Prelude.{◌^◌, ◌<◌, ◌≡◌, sym, ◌∙◌, ◌++◌}
use y7ke.Bytes.{
  Bytes, to_be_bytes, length-to_be_bytes, length-to_le_bytes, to_be_bytes-injective, append_cancel,
}
use y7ke.Int.{ℤ, InI64, i64_bits, i64_to_le_bytes, i64_to_le_bytes-injective}
use y7ke.Ident.{MessageId}
use y7ke.Messaging.{signed_bytes}

-- Of 16-byte ids and `i64` times, equal signed bytes have equal ids, times and ciphertexts: a
-- signature moves to no other message.
pub signed_bytes-injective :
    (id id' : MessageId) (ts ts' : ℤ) (ct ct' : Bytes)
    → id < 256 ^ 16
    → id' < 256 ^ 16
    → InI64 ts
    → InI64 ts'
    → signed_bytes id ts ct ≡ signed_bytes id' ts' ct'
    → (id ≡ id') × (ts ≡ ts') × (ct ≡ ct')
unfolding signed_bytes
signed_bytes-injective id id' ts ts' ct ct' hi hi' ht ht' e =
    let (ids, rest) =
      append_cancel (to_be_bytes 16 id) (i64_to_le_bytes ts ++ ct) (to_be_bytes 16 id')
        (i64_to_le_bytes ts' ++ ct') (length-to_be_bytes 16 id ∙ sym (length-to_be_bytes 16 id'))
        e in
    let (times, cts) =
      append_cancel (i64_to_le_bytes ts) ct (i64_to_le_bytes ts') ct'
        (length-to_le_bytes 8 (i64_bits ts) ∙ sym (length-to_le_bytes 8 (i64_bits ts'))) rest in
    (to_be_bytes-injective 16 id id' hi hi' ids, i64_to_le_bytes-injective ts ts' ht ht' times, cts)
