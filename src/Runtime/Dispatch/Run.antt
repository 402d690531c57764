-- ===== src/Runtime/Dispatch/Run.antt =====
-- crates/runtime/src/dispatch.rs: the dispatcher's loop, which runs rounds until the bus stops.
use sisa_messaging_rs.Prelude.{
  ℕ, zero, suc, ◌≡◌, refl, Bool, true, false, Bool-cases, inl, inr, if◌then◌else◌,
}
use sisa_messaging_rs.Prelude.Acts.{Act, pure, ◌>>=◌}
use sisa_messaging_rs.Core.Store.{OutboxStore, Duration}
use sisa_messaging_rs.Core.Transport.{TransportPublisher}
use sisa_messaging_rs.Runtime.Dispatch.{DispatchSettings, Timing, ErrorText, round}

-- The biased `select!` of the stop signal and a sleep: whether the signal came.
abbrev pub Wait : Type 0 → Type 0
Wait W = Duration → Act W Bool

module _ {W : Type 0} (store : OutboxStore W) (transport : TransportPublisher W) (timing : Timing W)
    (errors : ErrorText) (wait : Wait W) where
  -- At most so many turns of the loop: whether it ended in them.
  unfoldable pub run : ℕ → DispatchSettings → Act W Bool
  run zero settings = pure false
  run (suc turns) settings =
      let again = run turns settings in
      let sleep = wait settings.poll_interval >>= λ stop. if stop then pure true else again in
      round store transport timing errors settings >>= λ full.
      if full then (timing.stopping >>= λ stop. if stop then sleep else again) else sleep

  module _ (IsStopped : W → Type 0)
      (round_keeps : (settings : DispatchSettings) (w : W)
        → IsStopped w
        → IsStopped (round store transport timing errors settings w).1)
      (stopping_seen : (w : W) → IsStopped w → (timing.stopping w).0 ≡ true)
      (stopping_keeps : (w : W) → IsStopped w → IsStopped (timing.stopping w).1)
      (wait_seen : (d : Duration) (w : W) → IsStopped w → (wait d w).0 ≡ true) where
    -- Once the bus is stopping, the loop ends after the round it is in: if the signal stays, and both the
    -- check and the wait see it, then with any number of turns allowed, one at least, the loop ends and
    -- does what it does in one turn.
    pub run-ends :
        (settings : DispatchSettings) (turns : ℕ) (w : W)
        → IsStopped w
        → ((run (suc turns) settings w).0 ≡ true) × (run (suc turns) settings w ≡ run 1 settings w)
    unfolding run
    run-ends settings turns w stopped =
        let after = (round store transport timing errors settings w).1 in
        let kept = round_keeps settings w stopped in
        elim (Bool-cases (round store transport timing errors settings w).0) [
          | inl full ↦
              rw
                (
                  run,
                  full,
                  stopping_seen after kept,
                  wait_seen settings.poll_interval (timing.stopping after).1
                      (stopping_keeps after kept),
                )
                (refl, refl)
          | inr few ↦ rw (run, few, wait_seen settings.poll_interval after kept) (refl, refl)
        ]
