-- ===== src/Runtime/Dispatch/Trace/Guarded.antt =====
-- When a round publishes, and when it puts a row back.
use sisa_messaging_rs.Prelude.{◌-◌, ◌<◌, ◌≡◌, refl, true, false, List, [], ◌∷◌, err}
use sisa_messaging_rs.Core.Store.{OutboxRecord, Duration}
use sisa_messaging_rs.Runtime.Retry
use sisa_messaging_rs.Runtime.Dispatch.{DispatchSettings, next_attempt}
use sisa_messaging_rs.Runtime.Dispatch.Trace.{
  read_clock, read_stop, published, timer, retried, failed, History,
}
use sisa_messaging_rs.Runtime.Dispatch.Trace.Runs.{
  Runs, ends, halts, expires, times_out, confirms, retries, gives_up,
}

module _ (s : DispatchSettings) (c : Duration) where
  -- The stop signal was read as not set, then the clock within the lease of a claim made at `c`.
  abbrev pub AskedFirst : History → Type 0
  AskedFirst (read_clock now ∷ (read_stop false ∷ _)) = now - c < s.lease
  AskedFirst _ = ⊥

  -- The broker's answer for the row, in time, was an error.
  abbrev pub RefusedFirst : OutboxRecord → History → Type 0
  RefusedFirst r (timer false ∷ (published e (err _) ∷ _)) = e ≡ r.envelope
  RefusedFirst r _ = ⊥

  -- Each publish was asked for in this way, and each row put back was refused right before: it is
  -- failed on the last attempt, and waits the policy's delay on an earlier one.
  abbrev pub IsOrderly : History → Type 0
  IsOrderly [] = Unit
  IsOrderly (published e a ∷ h) = AskedFirst h × IsOrderly h
  IsOrderly (failed r t m ∷ h) =
      RefusedFirst r h × (Retry.is_last s.retry (next_attempt r.attempts) ≡ true) × IsOrderly h
  IsOrderly (retried r t d m ∷ h) =
      RefusedFirst r h
      × (Retry.is_last s.retry (next_attempt r.attempts) ≡ false)
      × (d ≡ Retry.delay s.retry (next_attempt r.attempts))
      × IsOrderly h
  IsOrderly (_ ∷ h) = IsOrderly h

module _ {s : DispatchSettings} {c : Duration} where
  pub Runs-IsOrderly :
      {rs qs : List OutboxRecord} {h h' : History}
      → Runs s c rs h qs h'
      → IsOrderly s c h
      → IsOrderly s c h'
  Runs-IsOrderly ends o = o
  Runs-IsOrderly halts o = o
  Runs-IsOrderly (expires _) o = o
  Runs-IsOrderly (times_out lt) o = (lt, o)
  Runs-IsOrderly (confirms lt run) o = Runs-IsOrderly run (lt, o)
  Runs-IsOrderly (retries lt more run) o = Runs-IsOrderly run (refl, more, refl, (lt, o))
  Runs-IsOrderly (gives_up lt last run) o = Runs-IsOrderly run (refl, last, (lt, o))
