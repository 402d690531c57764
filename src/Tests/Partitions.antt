-- ===== src/Tests/Partitions.antt =====
-- Two daily partitions ahead, of which one is there.
use sisa_messaging_rs.Prelude.{ℕ, ◌≡◌, refl, arith, List, [], ◌∷◌, ◌++◌, ok, err}
use sisa_messaging_rs.Prelude.Int.{pos, negsuc, ◌+ℤ◌, ◌-ℤ◌, ◌≤ℤ◌, ◌<ℤ◌, rem_euclid, clamp}
use sisa_messaging_rs.Core.Time.Date
use sisa_messaging_rs.Core.Time.Date.{Date}
use sisa_messaging_rs.Core.Store.{database}
use sisa_messaging_rs.Prelude.Text.{codes}
use sisa_messaging_rs.Core.Partition
use sisa_messaging_rs.Core.Partition.{PartitionInfo}
use sisa_messaging_rs.Postgres.Partitions.{
  find_holder, gap_end, fill, fill_intervals, ensure_partitions,
}
use sisa_messaging_rs.Core.Partition.Holds.{Holds, interval-Holds}
use sisa_messaging_rs.Core.Partition.Same.{interval-same}
use sisa_messaging_rs.Postgres.Partitions.Apart.{AreApart}
use sisa_messaging_rs.Postgres.Partitions.Attempts.{Attempt, Answers, created}
use sisa_messaging_rs.Postgres.Partitions.Attempts.Ensured.{
  Ensures, ensured, ensure_partitions-Ensures, ensure_partitions-AreApart,
}

abbrev date : ℕ → Date
date n = record { days = pos n }

-- The database refuses the second partition.
abbrev answers : Answers
answers [] day to = ok tt
answers (a ∷ w) day to = err (database "creating a partition" (codes "no space"))

abbrev existing : List PartitionInfo
existing = Partition.new [] (date 101) (date 102) ∷ []

abbrev first : Attempt
first = record { from = date 100; to = date 101; answer = ok tt }

test_created : ensured answers Partition.day (date 100) 3 (ok existing) ≡ (
  err (database "creating a partition" (codes "no space")),
  record { from = date 102; to = date 103; answer = answers (first ∷ []) (date 102) (date 103) }
      ∷ (first ∷ []),
)
unfolding ensure_partitions fill_intervals fill find_holder gap_end Partition.start Partition.end_of
    Date.add_days Date.saturating_add Date.from_days clamp ◌+ℤ◌ ◌-ℤ◌
test_created = refl

ensure_partitions-Ensures_example :
    Ensures Partition.day
      (date 100)
      3
      (ok existing)
      (ensured answers Partition.day (date 100) 3 (ok existing))
ensure_partitions-Ensures_example =
    ensure_partitions-Ensures answers Partition.day (date 100) 3 (ok existing)

ensure_partitions-AreApart_example :
    AreApart (existing ++ created (ensured answers Partition.day (date 100) 3 (ok existing)).1)
ensure_partitions-AreApart_example =
    ensure_partitions-AreApart answers Partition.day (date 100) 3 existing (tt, tt)

interval-Holds_example : Holds Partition.month (date 20_000)
interval-Holds_example =
    interval-Holds Partition.month (date 20_000) (record { low = omega arith; high = omega arith })
      (omega arith)

-- The week of 2024-10-04, from Monday 2024-09-30.
monday_20000 :
    ((Partition.start Partition.week (date 20_000)).days ≤ℤ pos 19_998)
    × (pos 19_998 <ℤ (Partition.end_of Partition.week (date 20_000)).days)
unfolding Partition.start Partition.end_of Date.monday Date.add_days Date.saturating_add
    Date.from_days clamp rem_euclid ◌+ℤ◌ ◌-ℤ◌
monday_20000 = (omega arith, omega arith)

interval-same_example :
    (Partition.start Partition.week (date 19_998) ≡ Partition.start Partition.week (date 20_000))
    × (Partition.end_of Partition.week (date 19_998)
        ≡ Partition.end_of Partition.week (date 20_000))
interval-same_example =
    interval-same Partition.week (date 20_000) (date 19_998) (omega arith) (omega arith)
      (record { low = omega arith; high = omega arith }) monday_20000.0 monday_20000.1

-- The year 0000 starts on a Saturday, so its first week starts before the dates do.
test_first_week :
    ((Partition.end_of Partition.week (record { days = Date.first_day })).days ≡ negsuc 719_520)
    × ((Partition.start Partition.week (record { days = negsuc 719_521 })).days ≡ negsuc 719_525)
unfolding Partition.start Partition.end_of Date.monday Date.add_days Date.saturating_add
    Date.from_days clamp rem_euclid ◌+ℤ◌ ◌-ℤ◌
test_first_week = (refl, refl)
