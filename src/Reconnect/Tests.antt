-- ===== src/Reconnect/Tests.antt =====
-- Concrete visits of an offline peer.
use y7ke.Prelude.{[], none, ◌∷◌}
use y7ke.Reconnect.Schedule.{Spaced, dials, reconnect_throttled}

reconnect_throttled_example : Spaced 10 0 (dials none ((10, 1) ∷ ((5000, 2) ∷ (40000, 3) ∷ [])))
reconnect_throttled_example = reconnect_throttled 10 1 ((5000, 2) ∷ (40000, 3) ∷ [])
