-- ===== src/Runtime/Maintenance/Run.antt =====
-- crates/runtime/src/maintenance.rs: the loop that maintains the partitions now and every hour.
use sisa_messaging_rs.Prelude.{ℕ, zero, suc, Bool, true, false, Bool-cases, inl, inr, if◌then◌else◌}
use sisa_messaging_rs.Prelude.Acts.{Act, pure, ◌>>=◌}
use sisa_messaging_rs.Core.Time.Date.{Date}
use sisa_messaging_rs.Core.Partition.{PartitionInfo, PartitionStore}
use sisa_messaging_rs.Core.Store.{Duration}
use sisa_messaging_rs.Runtime.Retry.{seconds}
use sisa_messaging_rs.Runtime.Dispatch.Run.{Wait}
use sisa_messaging_rs.Runtime.Maintenance.{PartitionSettings, maintain}
use sisa_messaging_rs.Runtime.Maintenance.Locked.{Obeyed, maintain-Free}

-- `EVERY`.
abbrev pub every : Duration
every = seconds 3_600

module _ {W : Type 0} (store : PartitionStore W) (settings : PartitionSettings) (today : Act W Date)
    (wait : Wait W) where
  -- At most so many turns of the loop: whether it ended in them. `today` is the clock's date, and an
  -- error of the run is logged.
  unfoldable pub run : ℕ → Act W Bool
  run zero = pure false
  run (suc turns) =
      let again = run turns in
      do
        day ← today
        result ← maintain store settings day
        stop ← wait every
        if stop then pure true else again

  module _ (Free Held : W → Type 0) (IsListed : PartitionInfo → Type 0)
      (obeyed : (day : Date) → Obeyed store settings day Free Held IsListed)
      (read_free : (w : W) → Free w → Free (today w).1)
      (waited_free : (w : W) → Free w → Free (wait every w).1) where
    -- Over any number of turns the worker waits only while the store is free, and leaves it free,
    -- for every `Free`, `Held` and `IsListed` that the store's operations respect as `Obeyed` says
    -- for each date, and that the clock and a wait in a free store respect.
    pub run-Free : (turns : ℕ) (w : W) → Free w → Free (run turns w).1
    unfolding run
    run-Free zero w free = free
    run-Free (suc turns) w free =
        let day = (today w).0 in
        let maintained =
          maintain-Free store settings day Free Held IsListed (obeyed day) (today w).1
            (read_free w free) in
        let w' = (maintain store settings day (today w).1).1 in
        elim (Bool-cases (wait every w').0) [
          | inl stop ↦ rw (◌>>=◌, stop) (waited_free w' maintained)
          | inr go ↦ rw (◌>>=◌, go) (run-Free turns (wait every w').1 (waited_free w' maintained))
        ]
