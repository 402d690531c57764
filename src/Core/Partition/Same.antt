-- ===== src/Core/Partition/Same.antt =====
-- crates/core/src/partition.rs: two intervals are the same, or apart.
use sisa_messaging_rs.Prelude.{ℕ, ◌+◌, ◌≡◌, sym, ap, subst, arith}
use sisa_messaging_rs.Prelude.Int.{
  ℤ, pos, negsuc, pos_part, neg_part, eq_of_parts, ◌+ℤ◌, ◌-ℤ◌, ◌*ℕ◌, div_euclid, ◌≤ℤ◌, ◌<ℤ◌,
  rem_euclid, clamp, int_laws,
}
use sisa_messaging_rs.Core.Time.Calendar.{date_from_days, days_from_date}
use sisa_messaging_rs.Core.Time.Calendar.Inverse.{days_from_date-date_from_days}
use sisa_messaging_rs.Core.Time.Calendar.Bounds.{date_from_days-IsDate}
use sisa_messaging_rs.Core.Time.Calendar.Months.{next_first, month-end, month-start}
use sisa_messaging_rs.Core.Time.Calendar.Order.{same_month}
use sisa_messaging_rs.Core.Time.Date.{
  Date, first_day, last_day, from_days, saturating_add, add_days, monday, first_of_month,
  first_of_next_month,
}
use sisa_messaging_rs.Core.Time.Date.RoundTrip.{IsInYears}
use sisa_messaging_rs.Core.Partition.{PartitionInterval, day, week, month, start, end_of}
use sisa_messaging_rs.Core.Partition.Holds.{from_days-le, from_days-ge, monday-le, rem_euclid-bound}

-- 0000-01-03, the first Monday.
abbrev pub first_monday : ℤ
first_monday = negsuc 719_525

-- The Monday of a day's week, which nothing clamps.
abbrev week_start : ℤ → ℤ
week_start d = d -ℤ pos (rem_euclid (d +ℤ pos 3) 7)

euclid_7 : (a : ℤ) → (div_euclid a 7 *ℕ 7) +ℤ pos (rem_euclid a 7) ≡ a
unfolding div_euclid rem_euclid ◌+ℤ◌ ◌*ℕ◌
euclid_7 (pos a) = ground arith
euclid_7 (negsuc a) = ground arith

-- As numbers, for `omega`.
euclid_parts :
    (d : ℤ)
    → pos_part (div_euclid (d +ℤ pos 3) 7 *ℕ 7) + rem_euclid (d +ℤ pos 3) 7 + neg_part d
      ≡ neg_part (div_euclid (d +ℤ pos 3) 7 *ℕ 7) + pos_part d + 3
euclid_parts d =
    omega (int_laws, ap pos_part (euclid_7 (d +ℤ pos 3)), ap neg_part (euclid_7 (d +ℤ pos 3)))

week_start_unique :
    (d o : ℤ) → week_start d ≤ℤ o → o <ℤ (week_start d +ℤ pos 7) → week_start o ≡ week_start d
week_start_unique d o low high = eq_of_parts (week_start o) (week_start d) (
    omega (
      int_laws,
      euclid_parts d,
      euclid_parts o,
      rem_euclid-bound (d +ℤ pos 3),
      rem_euclid-bound (o +ℤ pos 3),
    ))

week_start-low : (d : ℤ) → first_monday ≤ℤ d → first_day ≤ℤ week_start d
week_start-low d h = omega (int_laws, rem_euclid-bound (d +ℤ pos 3), euclid_parts d)

from_days-same : (a : ℤ) → first_day ≤ℤ a → a ≤ℤ last_day → (from_days a).days ≡ a
unfolding from_days clamp
from_days-same a low high = ground arith

saturating_add-le :
    (a : ℤ) (n : ℕ) → first_day ≤ℤ (a +ℤ pos n) → saturating_add a (pos n) ≤ℤ (a +ℤ pos n)
unfolding saturating_add clamp
saturating_add-le a n low = ground arith

add_days-le :
    (date : Date) (n : ℕ)
    → first_day ≤ℤ date.days
    → (add_days date (pos n)).days ≤ℤ (date.days +ℤ pos n)
unfolding add_days
add_days-le date n low =
    let later : first_day ≤ℤ (date.days +ℤ pos n) = omega int_laws in
    from_days-le (saturating_add date.days (pos n)) (date.days +ℤ pos n) later
      (saturating_add-le date.days n later)

same_day :
    (date other : Date)
    → date.days ≤ℤ other.days
    → other.days <ℤ (date.days +ℤ pos 1)
    → other ≡ date
same_day date other low high =
    ap (λ (d : ℤ). record { days = d }) (eq_of_parts other.days date.days (omega int_laws))

same_first :
    (date other : Date)
    → IsInYears date
    → IsInYears other
    → (first_of_month date).days ≤ℤ other.days
    → other.days <ℤ (first_of_next_month date).days
    → (first_of_month other ≡ first_of_month date)
      × (first_of_next_month other ≡ first_of_next_month date)
unfolding first_of_month first_of_next_month
same_first date other x y s e =
    let c = date_from_days date.days in
    let o = date_from_days other.days in
    let dated = date_from_days-IsDate date.days x.low x.high in
    let dated' = date_from_days-IsDate other.days y.low y.high in
    let back = days_from_date-date_from_days date.days in
    let back' = days_from_date-date_from_days other.days in
    let first = days_from_date c.year c.month 1 in
    let next = next_first c.year c.month in
    let before : first ≤ℤ date.days = subst (λ (x : ℤ). first ≤ℤ x) back (month-start c dated) in
    let after : date.days <ℤ next = subst (λ (x : ℤ). x <ℤ next) back (month-end c dated) in
    let kept = from_days-ge first (omega (arith, before, x.high)) in
    let cut = from_days-le next next (omega (arith, after, x.low)) (omega arith) in
    let same =
      same_month c o dated dated'
        (subst (λ (x : ℤ). first ≤ℤ x) (sym back') (omega (arith, kept, s)))
        (subst (λ (x : ℤ). x <ℤ next) (sym back') (omega (arith, cut, e))) in
    (ap from_days same.0, ap from_days same.1)

same_monday :
    (date other : Date)
    → first_monday ≤ℤ date.days
    → date.days ≤ℤ last_day
    → (monday date).days ≤ℤ other.days
    → other.days <ℤ (add_days (monday date) (pos 7)).days
    → monday other ≡ monday date
unfolding monday
same_monday date other low high s e =
    let m = week_start date.days in
    let kept : (from_days m).days ≡ m =
      from_days-same m (week_start-low date.days low) (omega (arith, monday-le date.days)) in
    let limit = add_days-le (from_days m) 7 (rw kept (week_start-low date.days low)) in
    ap from_days (
      week_start_unique date.days other.days (rw (sym kept) s)
        (subst (λ (x : ℤ). other.days <ℤ (x +ℤ pos 7)) kept (omega (arith, limit, e))))

-- A date from the start of a date's interval to before its end has an interval with the same start and
-- the same end, for days, weeks and months. So the intervals of two dates are the same or share no
-- date. The first date is from 0000-01-03, the first Monday, to before 9999-12-31.
pub interval-same :
    (interval : PartitionInterval) (date other : Date)
    → first_monday ≤ℤ date.days
    → date.days <ℤ last_day
    → IsInYears other
    → (start interval date).days ≤ℤ other.days
    → other.days <ℤ (end_of interval date).days
    → (start interval other ≡ start interval date) × (end_of interval other ≡ end_of interval date)
unfolding start end_of
interval-same day date other low high y s e =
    let same = same_day date other s (omega (arith, e, add_days-le date 1 (omega arith))) in
    (same, ap (λ d. add_days d (pos 1)) same)
interval-same week date other low high y s e =
    let same = same_monday date other low (omega arith) s e in
    (same, ap (λ d. add_days d (pos 7)) same)
interval-same month date other low high y s e =
    same_first date other (record { low = omega arith; high = omega arith }) y s e
