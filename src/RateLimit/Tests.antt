-- ===== src/RateLimit/Tests.antt =====
-- Concrete calls.
use y7ke.Prelude.{List, [], arith, ℕ, ◌∷◌, ◌≡◌}
use y7ke.RateLimit.{BucketLimit, empty_bucket}
use y7ke.RateLimit.Window.{admitted, admitted-eq-spec, spec_admitted}

abbrev two_in_ten : BucketLimit
two_in_ten = record { max_events = 2; window = 10 }

abbrev calls : List ℕ
calls = 1 ∷ 2 ∷ 3 ∷ 20 ∷ []

admitted-eq-spec_example :
    (admitted two_in_ten empty_bucket [] calls).1 ≡ spec_admitted two_in_ten [] calls
admitted-eq-spec_example = admitted-eq-spec two_in_ten calls (ground arith)
