-- ===== src/Postgres/Partitions/Covered.antt =====
-- crates/postgres/src/partitions.rs: the days that partitions hold, and the rounds that are enough.
use sisa_messaging_rs.Prelude.Int.{one_part, -ℤ_parts}
use sisa_messaging_rs.Prelude.{
  ℕ, zero, suc, ◌≤◌, ◌≡◌, refl, Bool, true, false, ◌&&◌, ◌||◌, List, [], ◌∷◌, ◌++◌, Option, none,
  some, arith, Bool-cases, inl, inr,
}
use sisa_messaging_rs.Prelude.Lists.{any_of}
use sisa_messaging_rs.Prelude.Int.{◌-ℤ◌, ◌≤ℤ◌, ◌<ℤ◌}
use sisa_messaging_rs.Core.Time.Date.{Date, lt_date, le_date}
use sisa_messaging_rs.Core.Partition
use sisa_messaging_rs.Core.Partition.{PartitionInfo, PartitionInterval}
use sisa_messaging_rs.Postgres.Partitions.{holds, find_holder, gap_end, days_between}

abbrev pub IsHeld : List PartitionInfo → Date → Type 0
IsHeld ps day = any_of (holds day) ps ≡ true

or_true : (b : Bool) → b || true ≡ true
or_true true = refl
or_true false = refl

-- What the search's answer tells.
abbrev pub IsHolder : List PartitionInfo → Date → Option PartitionInfo → Type 0
IsHolder ps day none = Unit
IsHolder ps day (some p) = (holds day p ≡ true) × ((d : Date) → holds d p ≡ true → IsHeld ps d)

IsHolder-cons :
    (q : PartitionInfo) (ps : List PartitionInfo) (day : Date) (o : Option PartitionInfo)
    → IsHolder ps day o
    → IsHolder (q ∷ ps) day o
IsHolder-cons q ps day none h = tt
IsHolder-cons q ps day (some p) h =
    (h.0, λ d k. (let rest = h.1 d k in rw rest (or_true (holds d q))))

pub find_holder-IsHolder :
    (ps : List PartitionInfo) (day : Date) → IsHolder ps day (find_holder day ps)
unfolding find_holder
find_holder-IsHolder [] day = tt
find_holder-IsHolder (q ∷ ps) day = elim (Bool-cases (holds day q)) [
  | inl e ↦ rw (find_holder, e) (e, λ d k. rw k refl)
  | inr e ↦
      rw (find_holder, e)
        (IsHolder-cons q ps day (find_holder day ps) (find_holder-IsHolder ps day))
]

pub gap_end-bounds :
    (day end : Date) (ps : List PartitionInfo)
    → day.days <ℤ end.days
    → (day.days <ℤ (gap_end day end ps).days) × ((gap_end day end ps).days ≤ℤ end.days)
unfolding gap_end
gap_end-bounds day end [] h = (h, omega arith)
gap_end-bounds day end (p ∷ ps) h = ground (arith, gap_end-bounds day end ps h)

pub append-IsHeld : (ps qs : List PartitionInfo) (d : Date) → IsHeld ps d → IsHeld (ps ++ qs) d
append-IsHeld [] qs d h = cc
append-IsHeld (p ∷ ps) qs d h = ground (arith, append-IsHeld ps qs d)

pub last-IsHeld :
    (ps : List PartitionInfo) (q : PartitionInfo) (d : Date)
    → holds d q ≡ true
    → IsHeld (ps ++ (q ∷ [])) d
last-IsHeld [] q d h = ground arith
last-IsHeld (p ∷ ps) q d h = ground (arith, last-IsHeld ps q d h)

abbrev pub IsIn : Date → Date → Date → Type 0
IsIn start end d = le_date start d && lt_date d end ≡ true

-- The end of some intervals in a row.
abbrev pub horizon : PartitionInterval → ℕ → Date → Date
horizon interval zero start = start
horizon interval (suc n) start = horizon interval n (Partition.end_of interval start)

pub days_left-zero : (day end : Date) → days_between day end ≤ 0 → lt_date day end ≡ false
days_left-zero day end h = ground (arith, -ℤ_parts end.days day.days)

pub days_left-step :
    (n : ℕ) (day to end : Date)
    → days_between day end ≤ suc n
    → day.days <ℤ to.days
    → days_between to end ≤ n
days_left-step n day to end h step =
    ground
      (arith, -ℤ_parts end.days day.days, -ℤ_parts end.days to.days, one_part (end.days -ℤ to.days))
