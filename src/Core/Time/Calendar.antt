-- ===== src/Core/Time/Calendar.antt =====
-- crates/core/src/time.rs: days since 1970-01-01 to proleptic Gregorian dates and back. The
-- `i64` values are integers: for the days of years 0000 to 9999 none comes near 2 ^ 63.
pub mod Inverse
pub mod Bounds
pub mod Months
pub mod Order
use sisa_messaging_rs.Prelude.{
  ℕ, ◌+◌, ◌-◌, ◌*◌, ◌/◌, ◌%◌, Bool, not, ◌&&◌, ◌||◌, leb, ltb, ◌==◌, if◌then◌else◌,
}
use sisa_messaging_rs.Prelude.Int.{ℤ, pos, negsuc, ◌+ℤ◌, ◌-ℤ◌, ◌*ℕ◌, div_euclid, rem_euclid}

abbrev pub seconds_per_day : ℕ
seconds_per_day = 86_400

abbrev pub nanos_per_second : ℕ
nanos_per_second = 1_000_000_000

-- -62_167_219_200
abbrev pub first_second : ℤ
first_second = negsuc 62_167_219_199

abbrev pub end_second : ℤ
end_second = pos 253_402_300_800

pub record CivilDate : Type 0 where
  pub year : ℤ
  pub month : ℕ
  pub day : ℕ

unfoldable pub year_of_era : ℕ → ℕ
year_of_era day_of_era =
    (day_of_era - day_of_era / 1_460 + day_of_era / 36_524 - day_of_era / 146_096) / 365

-- The days of an era before year `y` of the era.
unfoldable pub days_before_year : ℕ → ℕ
days_before_year y = 365 * y + y / 4 - y / 100

unfoldable pub month_from_march : ℕ → ℕ
month_from_march day_of_year = (5 * day_of_year + 2) / 153

-- Months counted from March to months counted from January.
unfoldable pub calendar_month : ℕ → ℕ
calendar_month m = if ltb m 10 then m + 3 else m - 9

abbrev pub january_or_february : ℕ → ℕ
january_or_february month = if leb month 2 then 1 else 0

unfoldable pub date_from_days : ℤ → CivilDate
date_from_days days =
    let shifted = days +ℤ pos 719_468 in
    let era = div_euclid shifted 146_097 in
    let day_of_era = rem_euclid shifted 146_097 in
    let y = year_of_era day_of_era in
    let day_of_year = day_of_era - days_before_year y in
    let m = month_from_march day_of_year in
    record {
      year = (pos y +ℤ era *ℕ 400) +ℤ pos (january_or_february (calendar_month m));
      month = calendar_month m;
      day = day_of_year - (153 * m + 2) / 5 + 1;
    }

unfoldable pub days_from_date : ℤ → ℕ → ℕ → ℤ
days_from_date year month day =
    let year' = year -ℤ pos (january_or_february month) in
    let era = div_euclid year' 400 in
    let y = rem_euclid year' 400 in
    let m = (month + 9) % 12 in
    let day_of_year = (153 * m + 2) / 5 + day - 1 in
    let day_of_era = y * 365 + y / 4 - y / 100 + day_of_year in
    (era *ℕ 146_097 +ℤ pos day_of_era) -ℤ pos 719_468

-- A remainder by `%` is 0 when the Euclidean one is.
unfoldable pub is_leap : ℤ → Bool
is_leap year =
    (rem_euclid year 4 == 0) && (not (rem_euclid year 100 == 0) || (rem_euclid year 400 == 0))

unfoldable pub days_in_month : ℤ → ℕ → ℕ
days_in_month year month =
    if month == 2
    then (if is_leap year then 29 else 28)
    else if (month == 4) || ((month == 6) || ((month == 9) || (month == 11)))
    then 30
    else 31
