-- ===== src/Core/Time/Calendar/Bounds.antt =====
-- crates/core/src/time.rs: the date of a day of years 0000 to 9999 is a date of the calendar.
use sisa_messaging_rs.Prelude.Int.{ℤ, pos, negsuc, ◌+ℤ◌, ◌*ℕ◌, ◌≤ℤ◌, div_euclid, rem_euclid}
use native.Mathlib.Decide.{dec_lt}
use sisa_messaging_rs.Prelude.{
  ℕ, ◌+◌, ◌-◌, ◌*◌, ◌/◌, ◌%◌, ◌≤◌, ◌<◌, ◌≡◌, ◌≢◌, refl, arith, true, ◌⊎◌, inl, inr, subst, sym,
}
use sisa_messaging_rs.Core.Time.Calendar.{
  CivilDate, month_from_march, calendar_month, january_or_february, date_from_days, year_of_era,
  days_before_year, is_leap, days_in_month,
}
use sisa_messaging_rs.Core.Time.Calendar.Inverse.{
  year_of_era-bound, year_ends, year_starts, month-bound,
}

-- The last day of a year of 366 days.
leap_end :
    (d : ℕ)
    → d < 146_097
    → d ≡ days_before_year (year_of_era d) + 365
    → ((year_of_era d + 1) % 4 ≡ 0)
      × (((year_of_era d + 1) % 100 ≢ 0) ⊎ ((year_of_era d + 1) % 400 ≡ 0))
unfolding year_of_era days_before_year
leap_end d h e = ground arith

day_bound : (r : ℕ) → r ≤ 365 → r - (153 * month_from_march r + 2) / 5 + 1 ≤ 31
unfolding month_from_march
day_bound r h = omega arith

calendar_month_bounds : (m : ℕ) → m ≤ 11 → (1 ≤ calendar_month m) × (calendar_month m ≤ 12)
unfolding calendar_month
calendar_month_bounds m h = ground arith

-- Every month but February.
other_month :
    (r : ℕ) (year : ℤ)
    → r ≤ 336
    → r - (153 * month_from_march r + 2) / 5 + 1
      ≤ days_in_month year (calendar_month (month_from_march r))
unfolding month_from_march calendar_month days_in_month
other_month r year h = ground arith

february : (r : ℕ) → 337 ≤ r → r ≤ 365 → calendar_month (month_from_march r) ≡ 2
unfolding month_from_march calendar_month
february r h k = ground arith

february_day : (r : ℕ) → 337 ≤ r → r ≤ 365 → r - (153 * month_from_march r + 2) / 5 + 1 ≡ r - 336
unfolding month_from_march
february_day r h k = omega arith

is_leap-of :
    (y q : ℕ)
    → ((y + 1) % 4 ≡ 0) × (((y + 1) % 100 ≢ 0) ⊎ ((y + 1) % 400 ≡ 0))
    → is_leap (pos (y + q * 400 + 1)) ≡ true
unfolding is_leap rem_euclid
is_leap-of y q (h, inl k) = ground arith
is_leap-of y q (h, inr k) = ground arith

-- A date's year and its month and day, within the calendar.
pub record IsDate (c : CivilDate) : Type 0 where
  pub year : ℕ
  pub year_eq : c.year ≡ pos year
  pub year_bound : year ≤ 9_999
  pub month_first : 1 ≤ c.month
  pub month_last : c.month ≤ 12
  pub day_first : 1 ≤ c.day
  pub day_last : c.day ≤ days_in_month (pos year) c.month

february_days :
    (d q : ℕ)
    → d < 146_097
    → (let y = year_of_era d in
        let r = d - days_before_year y in
        337 ≤ r
        → r - (153 * month_from_march r + 2) / 5 + 1
          ≤ days_in_month (pos (y + q * 400 + 1)) (calendar_month (month_from_march r)))
unfolding days_in_month
february_days d q h k =
    let y = year_of_era d in
    let r = d - days_before_year y in
    let last : r ≤ 365 = omega (arith, year_ends d h) in
    rw (february r k last, february_day r k last)
      (elim (dec_lt r 365) [
        | yes short ↦ ground arith
        | no long ↦
            let leap = is_leap-of y q (leap_end d h (omega (arith, year_starts d h))) in
            rw leap (omega arith)
      ])

year_pos : (y q j : ℕ) → (pos y +ℤ pos q *ℕ 400) +ℤ pos j ≡ pos (y + q * 400 + j)
unfolding ◌+ℤ◌ ◌*ℕ◌
year_pos y q j = ground arith

abbrev next_year : ℕ → ℕ
next_year r = january_or_february (calendar_month (month_from_march r))

last_year : (d : ℕ) → d ≤ 146_036 → 399 ≤ year_of_era d → d - days_before_year (year_of_era d) ≤ 305
unfolding year_of_era days_before_year
last_year d h k = omega arith

before_january : (r : ℕ) → r ≤ 305 → next_year r ≡ 0
unfolding month_from_march calendar_month
before_january r h = ground arith

next_year-le : (r : ℕ) → next_year r ≤ 1
next_year-le r = ground arith

next_year-february : (r : ℕ) → calendar_month (month_from_march r) ≡ 2 → next_year r ≡ 1
next_year-february r h = rw h refl

-- The last era ends with year 9999.
last_era :
    (d : ℕ) → d ≤ 146_036 → year_of_era d + next_year (d - days_before_year (year_of_era d)) ≤ 399
last_era d h =
    let y = year_of_era d in
    let r = d - days_before_year y in
    elim (dec_lt y 399) [
      | yes before ↦ omega (arith, next_year-le r)
      | no last ↦
          omega (
            arith,
            before_january r (last_year d h (omega arith)),
            year_of_era-bound d (omega arith),
          )
    ]

years :
    (s : ℕ)
    → s ≤ 3_652_364
    → year_of_era (s % 146_097)
        + s / 146_097 * 400
        + next_year (s % 146_097 - days_before_year (year_of_era (s % 146_097)))
      ≤ 9_999
years s h =
    let d = s % 146_097 in
    let r = d - days_before_year (year_of_era d) in
    elim (dec_lt (s / 146_097) 24) [
      | yes before ↦ omega (arith, next_year-le r, year_of_era-bound d (omega arith))
      | no last ↦ omega (arith, last_era d (omega arith))
    ]

-- In an era from year 0 on.
IsDate-later :
    (days : ℤ) (s : ℕ) → days +ℤ pos 719_468 ≡ pos s → s ≤ 3_652_364 → IsDate (date_from_days days)
unfolding date_from_days div_euclid rem_euclid
IsDate-later days s e h =
    let d = s % 146_097 in
    let q = s / 146_097 in
    let y = year_of_era d in
    let r = d - days_before_year y in
    let m = month_from_march r in
    let small : d < 146_097 = omega arith in
    let last : r ≤ 365 = omega (arith, year_ends d small) in
    let months = calendar_month_bounds m (month-bound r last) in
    rw e (record {
      year = y + q * 400 + next_year r;
      year_eq = year_pos y q (next_year r);
      year_bound = years s h;
      month_first = months.0;
      month_last = months.1;
      day_first = omega arith;
      day_last = elim (dec_lt r 337) [
        | yes other ↦ other_month r (pos (y + q * 400 + next_year r)) (omega arith)
        | no feb ↦
            let one = next_year-february r (february r (omega arith) last) in
            subst
              (λ (j : ℕ).
                r - (153 * m + 2) / 5 + 1
                ≤ days_in_month (pos (y + q * 400 + j)) (calendar_month m))
              (sym one) (february_days d q small (omega arith))
      ];
    })

first_year : (y k : ℕ) → y ≡ 399 → k < 60 → (pos y +ℤ negsuc (k / 146_097) *ℕ 400) +ℤ pos 1 ≡ pos 0
unfolding ◌+ℤ◌ ◌*ℕ◌
first_year y k e h = ground arith

first_days : (k : ℕ) → k < 60 → year_of_era (146_097 - 1 - k % 146_097) ≡ 399
unfolding year_of_era
first_days k h = omega arith

first_range :
    (k : ℕ)
    → k < 60
    → (306 ≤ 146_097 - 1 - k % 146_097 - days_before_year 399)
      × (146_097 - 1 - k % 146_097 - days_before_year 399 ≤ 365)
unfolding days_before_year
first_range k h = omega arith

from_january : (r : ℕ) → 306 ≤ r → r ≤ 365 → next_year r ≡ 1
unfolding month_from_march calendar_month
from_january r h k = ground arith

february_0 :
    (r : ℕ)
    → 337 ≤ r
    → r ≤ 365
    → r - (153 * month_from_march r + 2) / 5 + 1
      ≤ days_in_month (pos 0) (calendar_month (month_from_march r))
unfolding days_in_month is_leap rem_euclid
february_0 r h k = rw (february r h k, february_day r h k) (omega arith)

-- The 60 days of year 0 before its March.
IsDate-first :
    (days : ℤ) (k : ℕ) → days +ℤ pos 719_468 ≡ negsuc k → k < 60 → IsDate (date_from_days days)
unfolding date_from_days div_euclid rem_euclid
IsDate-first days k e h =
    let d = 146_097 - 1 - k % 146_097 in
    let y = year_of_era d in
    let same : y ≡ 399 = first_days k h in
    let r = d - days_before_year y in
    let m = month_from_march r in
    let bounds : (306 ≤ r) × (r ≤ 365) = rw same (first_range k h) in
    let months = calendar_month_bounds m (month-bound r bounds.1) in
    rw e (record {
      year = 0;
      year_eq = rw (from_january r bounds.0 bounds.1) (first_year y k same h);
      year_bound = omega arith;
      month_first = months.0;
      month_last = months.1;
      day_first = omega arith;
      day_last = elim (dec_lt r 337) [
        | yes january ↦ other_month r (pos 0) (omega arith)
        | no feb ↦ february_0 r (omega arith) bounds.1
      ];
    })

shift_high :
    (days : ℤ) (s : ℕ) → days ≤ℤ pos 2_932_896 → days +ℤ pos 719_468 ≡ pos s → s ≤ 3_652_364
unfolding ◌+ℤ◌
shift_high days s h e = ground arith

shift_low : (days : ℤ) (k : ℕ) → negsuc 719_527 ≤ℤ days → days +ℤ pos 719_468 ≡ negsuc k → k < 60
unfolding ◌+ℤ◌
shift_low days k h e = ground arith

-- The days of years 0000 to 9999 have dates of those years.
pub date_from_days-IsDate :
    (days : ℤ) → negsuc 719_527 ≤ℤ days → days ≤ℤ pos 2_932_896 → IsDate (date_from_days days)
date_from_days-IsDate days low high = go (days +ℤ pos 719_468) refl
  where
    go : (a : ℤ) → days +ℤ pos 719_468 ≡ a → IsDate (date_from_days days)
    go (pos s) e = IsDate-later days s e (shift_high days s high e)
    go (negsuc k) e = IsDate-first days k e (shift_low days k low e)
