-- ===== src/Core/Time/Calendar/Inverse.antt =====
-- crates/core/src/time.rs: `days_from_date` undoes `date_from_days`.
use sisa_messaging_rs.Prelude.Int.{
  ℤ, pos, negsuc, ◌+ℤ◌, ◌-ℤ◌, ◌*ℕ◌, div_euclid, rem_euclid, +ℤ_parts, -ℤ_parts, eq_of_parts,
}
use sisa_messaging_rs.Core.Time.Calendar.{
  month_from_march, calendar_month, date_from_days, days_from_date, january_or_february,
}
use sisa_messaging_rs.Prelude.{ℕ, ◌+◌, ◌-◌, ◌*◌, ◌/◌, ◌%◌, ◌≤◌, ◌<◌, ◌≡◌, arith}
use sisa_messaging_rs.Core.Time.Calendar.{year_of_era, days_before_year}

pub year_of_era-bound : (d : ℕ) → d < 146_097 → year_of_era d < 400
unfolding year_of_era
year_of_era-bound d h = omega arith

pub year_starts : (d : ℕ) → d < 146_097 → days_before_year (year_of_era d) ≤ d
unfolding year_of_era days_before_year
year_starts d h = omega arith

pub year_ends : (d : ℕ) → d < 146_097 → d ≤ days_before_year (year_of_era d) + 365
unfolding year_of_era days_before_year
year_ends d h = omega arith

pub month_starts : (d : ℕ) → (153 * month_from_march d + 2) / 5 ≤ d
unfolding month_from_march
month_starts d = omega arith

pub month-bound : (d : ℕ) → d ≤ 365 → month_from_march d ≤ 11
unfolding month_from_march
month-bound d h = omega arith

calendar_month_back : (m : ℕ) → m ≤ 11 → (calendar_month m + 9) % 12 ≡ m
unfolding calendar_month
calendar_month_back m h = ground arith

era_back : (era : ℤ) (y : ℕ) → y < 400 → div_euclid (pos y +ℤ era *ℕ 400) 400 ≡ era
unfolding div_euclid ◌+ℤ◌ ◌*ℕ◌
era_back (pos q) y h = ground arith
era_back (negsuc q) y h = ground arith

year_back : (era : ℤ) (y : ℕ) → y < 400 → rem_euclid (pos y +ℤ era *ℕ 400) 400 ≡ y
unfolding rem_euclid ◌+ℤ◌ ◌*ℕ◌
year_back (pos q) y h = ground arith
year_back (negsuc q) y h = ground arith

pub day_of_era-bound : (a : ℤ) → rem_euclid a 146_097 < 146_097
unfolding rem_euclid
day_of_era-bound (pos a) = omega arith
day_of_era-bound (negsuc a) = omega arith

-- An integer is its quotient by the days of an era, and what is left.
euclid_back : (a : ℤ) → div_euclid a 146_097 *ℕ 146_097 +ℤ pos (rem_euclid a 146_097) ≡ a
unfolding div_euclid rem_euclid ◌+ℤ◌ ◌*ℕ◌
euclid_back (pos a) = ground arith
euclid_back (negsuc a) = ground arith

add_sub : (a b : ℤ) → (a +ℤ b) -ℤ b ≡ a
add_sub a b = eq_of_parts ((a +ℤ b) -ℤ b) a (omega (arith, +ℤ_parts a b, -ℤ_parts (a +ℤ b) b))

-- The parts of a day of an era, put together again.
day_back :
    (d : ℕ)
    → d < 146_097
    → (let y = year_of_era d in
        let r = d - days_before_year y in
        let m = month_from_march r in
        y * 365 + y / 4 - y / 100 + ((153 * m + 2) / 5 + (r - (153 * m + 2) / 5 + 1) - 1))
      ≡ d
unfolding days_before_year
day_back d h = omega (arith, year_starts d h, month_starts (d - days_before_year (year_of_era d)))

-- Each day number is read back from its date, in every year.
pub days_from_date-date_from_days :
    (days : ℤ)
    → days_from_date
        (date_from_days days).year
        (date_from_days days).month
        (date_from_days days).day
      ≡ days
unfolding days_from_date date_from_days
days_from_date-date_from_days days =
    let a = days +ℤ pos 719_468 in
    let era = div_euclid a 146_097 in
    let d = rem_euclid a 146_097 in
    let y = year_of_era d in
    let r = d - days_before_year y in
    let m = month_from_march r in
    let leap = january_or_february (calendar_month m) in
    let h = day_of_era-bound a in
    rw
      (
        add_sub (pos y +ℤ era *ℕ 400) (pos leap),
        era_back era y (year_of_era-bound d h),
        year_back era y (year_of_era-bound d h),
        calendar_month_back m (month-bound r (omega (arith, year_ends d h))),
        day_back d h,
        euclid_back a,
      )
      (add_sub days (pos 719_468))
