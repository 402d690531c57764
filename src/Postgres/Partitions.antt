-- ===== src/Postgres/Partitions.antt =====
-- crates/postgres/src/partitions.rs: which partitions `ensure_partitions` creates. The statements
-- that list the partitions and create one are parameters here; Statements.antt has them.
pub mod Covered
pub mod Apart
pub mod Attempts
pub mod Statements
use sisa_messaging_rs.Prelude.{
  ℕ, zero, suc, ◌+◌, Bool, not, ◌&&◌, List, [], ◌∷◌, ◌++◌, Option, none, some, Result, ok, err,
  if◌then◌else◌,
}
use sisa_messaging_rs.Prelude.Acts.{Act, pure, ◌>>=◌, ◌>>?◌}
use sisa_messaging_rs.Prelude.Int.{pos_part, ◌-ℤ◌}
use sisa_messaging_rs.Core.Time.Date.{Date, lt_date, le_date}
use sisa_messaging_rs.Core.Store.{StoreError}
use sisa_messaging_rs.Core.Partition
use sisa_messaging_rs.Core.Partition.{PartitionInterval, PartitionInfo}

abbrev pub holds : Date → PartitionInfo → Bool
holds day p = le_date p.from day && lt_date day p.to

-- `iter().find(..)`.
unfoldable pub find_holder : Date → List PartitionInfo → Option PartitionInfo
find_holder day [] = none
find_holder day (p ∷ ps) = let rest = find_holder day ps in if holds day p then some p else rest

-- `next.min(end)` over the starts after `day`; `end` when there is none.
unfoldable pub gap_end : Date → Date → List PartitionInfo → Date
gap_end day end [] = end
gap_end day end (p ∷ ps) =
    let rest = gap_end day end ps in
    if lt_date day p.from && lt_date p.from rest then p.from else rest

-- `first_error.get_or_insert(error)`.
abbrev pub get_or_insert : Option StoreError → StoreError → Option StoreError
get_or_insert none e = some e
get_or_insert (some first) e = some first

-- `existing` and `first_error`.
abbrev pub Progress : Type 0
Progress = List PartitionInfo × Option StoreError

abbrev pub days_between : Date → Date → ℕ
days_between start end = pos_part (end.days -ℤ start.days)

abbrev pub answer_of : Option StoreError → Result StoreError (Unit {0})
answer_of none = ok tt
answer_of (some e) = err e

module _ {W : Type 0} (create : Date → Date → Act W (Result StoreError (Unit {0}))) where
  abbrev pub noted : Date → Date → Progress → Result StoreError (Unit {0}) → Progress
  noted day to (existing, first) (ok _) = (existing ++ (Partition.new [] day to ∷ []), first)
  noted day to (existing, first) (err e) = (existing, get_or_insert first e)

  -- The `while` loop; each round moves `day` by one day at least, so as many rounds as there are
  -- days are enough.
  unfoldable pub fill : ℕ → Date → Date → Progress → Act W Progress
  fill zero end day progress = pure progress
  fill (suc n) end day progress =
      if not (lt_date day end) then pure progress else elim (find_holder day progress.0) [
        | some holder ↦ fill n end holder.to progress
        | none ↦
            let to = gap_end day end progress.0 in
            create day to >>= λ created. fill n end to (noted day to progress created)
      ]

  -- The `for` loop over the intervals.
  unfoldable pub fill_intervals : PartitionInterval → ℕ → Date → Progress → Act W Progress
  unfolding fill
  fill_intervals interval zero start progress = pure progress
  fill_intervals interval (suc n) start progress =
      let end = Partition.end_of interval start in
      fill (days_between start end) end start progress >>= fill_intervals interval n end

  unfoldable pub ensure_partitions :
      Act W (Result StoreError (List PartitionInfo))
      → PartitionInterval
      → Date
      → ℕ
      → Act W (Result StoreError (Unit {0}))
  unfolding fill_intervals
  ensure_partitions partitions interval from count = partitions >>? λ existing. do
    (all, first) ← fill_intervals interval count (Partition.start interval from) (existing, none)
    pure (answer_of first)
