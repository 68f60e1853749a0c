-- ===== src/EventLoop/Nat.antt =====
-- `handle_nat_status` of crates/y7ke-app/src/event_loop.rs; the detail of the last probe, kept for
-- the diagnostics, is not modelled.
pub mod Verdict
use y7ke.Prelude.{
  ℕ, ◌+◌, ◌-◌, ◌^◌, Bool, true, false, not, ◌||◌, ◌&&◌, ◌==◌, leb, [], if◌then◌else◌, min,
}
use y7ke.Status.{NatReachability, public, private, ok}
use y7ke.App.{
  App, Exec, Done, NatStatusState, ◌>>=◌, ◌>>◌, finished, modify, gets, emit, nat_status_changed,
}

abbrev pub verdict_code : NatReachability → ℕ
verdict_code public = 0
verdict_code private = 1
verdict_code NatReachability.unknown = 2

abbrev pub same_verdict : NatReachability → NatReachability → Bool
same_verdict a b = verdict_code a == verdict_code b

unfoldable pub absorb_probe : NatStatusState → Bool → NatStatusState
absorb_probe state true = record { verdict = public; consecutive_failures = 0 }
absorb_probe state false =
    let failures = min (state.consecutive_failures + 1) (2 ^ 32 - 1) in
    let unknown_first_miss = same_verdict state.verdict NatReachability.unknown in
    let public_triple_miss = same_verdict state.verdict public && leb 3 failures in
    record {
      verdict = (if unknown_first_miss || public_triple_miss then private else state.verdict);
      consecutive_failures = failures;
    }

unfoldable pub tell_verdict : NatReachability → NatReachability → Exec Done
tell_verdict previous now =
    if not (same_verdict previous now)
    then (do
      emit (nat_status_changed now)
      if same_verdict now public
          then modify (λ s. record s { upgrade_backoff = []; woken = true })
          else finished)
    else finished

unfoldable pub handle_nat_status : Bool → Exec Done
unfolding absorb_probe
handle_nat_status reachable = do
  state ← gets (λ s. s.nat_status)
  let after = absorb_probe state reachable
  modify (λ s. record s { nat_status = after })
  tell_verdict state.verdict after.verdict
