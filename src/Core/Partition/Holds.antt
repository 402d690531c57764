-- ===== src/Core/Partition/Holds.antt =====
-- crates/core/src/partition.rs: the interval that holds a date.
use sisa_messaging_rs.Prelude.{ℕ, ◌<◌, subst, arith}
use sisa_messaging_rs.Prelude.Int.{
  ℤ, pos, negsuc, ◌+ℤ◌, ◌-ℤ◌, ◌≤ℤ◌, ◌<ℤ◌, rem_euclid, clamp, int_laws,
}
use sisa_messaging_rs.Core.Time.Calendar.{date_from_days, days_from_date}
use sisa_messaging_rs.Core.Time.Calendar.Inverse.{days_from_date-date_from_days}
use sisa_messaging_rs.Core.Time.Calendar.Bounds.{date_from_days-IsDate}
use sisa_messaging_rs.Core.Time.Calendar.Months.{next_first, month-end, month-start}
use sisa_messaging_rs.Core.Time.Date.{
  Date, first_day, last_day, from_days, saturating_add, add_days, monday, first_of_month,
  first_of_next_month,
}
use sisa_messaging_rs.Core.Time.Date.RoundTrip.{IsInYears}
use sisa_messaging_rs.Core.Partition.{PartitionInterval, day, week, month, start, end_of}

pub from_days-le : (a b : ℤ) → first_day ≤ℤ b → a ≤ℤ b → (from_days a).days ≤ℤ b
unfolding from_days clamp
from_days-le a b low h = ground arith

lt-from_days : (a b : ℤ) → first_day ≤ℤ a → a <ℤ last_day → a <ℤ b → a <ℤ (from_days b).days
unfolding from_days clamp
lt-from_days a b low high h = ground arith

pub from_days-ge : (a : ℤ) → a ≤ℤ last_day → a ≤ℤ (from_days a).days
unfolding from_days clamp
from_days-ge a h = ground arith

lt-saturating_add :
    (a b : ℤ) (n : ℕ)
    → first_day ≤ℤ a
    → a <ℤ last_day
    → a <ℤ (b +ℤ pos n)
    → a <ℤ saturating_add b (pos n)
unfolding saturating_add clamp
lt-saturating_add a b n low high h = ground arith

lt-add_days :
    (a : ℤ) (date : Date) (n : ℕ)
    → first_day ≤ℤ a
    → a <ℤ last_day
    → a <ℤ (date.days +ℤ pos n)
    → a <ℤ (add_days date (pos n)).days
unfolding add_days
lt-add_days a date n low high h =
    lt-from_days a (saturating_add date.days (pos n)) low high
      (lt-saturating_add a date.days n low high h)

-- The interval is not empty, and its first and last day are on both sides of the date.
pub record Holds (interval : PartitionInterval) (date : Date) : Type 0 where
  pub from_start : (start interval date).days ≤ℤ date.days
  pub to_end : date.days <ℤ (end_of interval date).days

pub rem_euclid-bound : (a : ℤ) → rem_euclid a 7 < 7
unfolding rem_euclid
rem_euclid-bound (pos n) = omega arith
rem_euclid-bound (negsuc n) = omega arith

pub monday-le : (d : ℤ) → (d -ℤ pos (rem_euclid (d +ℤ pos 3) 7)) ≤ℤ d
monday-le d = omega int_laws

next_monday-lt : (d m : ℤ) → (d -ℤ pos (rem_euclid (d +ℤ pos 3) 7)) ≤ℤ m → d <ℤ (m +ℤ pos 7)
next_monday-lt d m h = omega (int_laws, rem_euclid-bound (d +ℤ pos 3))

-- A date of years 0000 to 9999 stands in its interval, at or after the interval's start and before
-- its end, but for 9999-12-31, which no end follows.
pub interval-Holds :
    (interval : PartitionInterval) (date : Date)
    → IsInYears date
    → date.days <ℤ last_day
    → Holds interval date
unfolding start end_of monday first_of_month first_of_next_month
interval-Holds day date y h = record {
  from_start = omega arith;
  to_end = lt-add_days date.days date 1 y.low h (omega int_laws);
}
interval-Holds week date y h =
    let m = date.days -ℤ pos (rem_euclid (date.days +ℤ pos 3) 7) in
    record {
      from_start = from_days-le m date.days y.low (monday-le date.days);
      to_end = lt-add_days date.days (from_days m) 7 y.low h (
          next_monday-lt date.days (from_days m).days
            (from_days-ge m (omega (arith, monday-le date.days, y.high))));
    }
interval-Holds month date y h =
    let c = date_from_days date.days in
    let dated = date_from_days-IsDate date.days y.low y.high in
    let back = days_from_date-date_from_days date.days in
    record {
      from_start =
          from_days-le (days_from_date c.year c.month 1) date.days y.low
            (subst (λ (x : ℤ). days_from_date c.year c.month 1 ≤ℤ x) back (month-start c dated));
      to_end =
          lt-from_days date.days (next_first c.year c.month) y.low h
            (subst (λ (x : ℤ). x <ℤ next_first c.year c.month) back (month-end c dated));
    }
