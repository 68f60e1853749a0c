-- ===== src/Status/Codes.antt =====
-- The codes under which statuses are stored, read back.
use y7ke.Prelude.{ℕ, ◌≡◌, refl, some, ◌↔◌, arith}
use y7ke.Status.{MessageStatus, ContactStatus, as_i64, from_i64, as_str, from_str, ok}

-- A code is read back as a message status exactly when it is the code that the status is stored
-- under, so that no two statuses share one and no other code is read.
pub from_i64_iff : (v : ℕ) (s : MessageStatus) → (from_i64 v ≡ some s) ↔ (v ≡ as_i64 s)
unfolding from_i64 as_i64
from_i64_iff v s = ground arith

-- A contact status is read back from the word under which it is stored.
pub from_str-as_str : (s : ContactStatus) → from_str (as_str s) ≡ ok s
unfolding from_str as_str
from_str-as_str ContactStatus.accepted = refl
from_str-as_str _ = refl
