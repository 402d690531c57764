-- ===== src/Core/Time/Date/RoundTrip.antt =====
-- crates/core/src/time.rs: `Date`'s `FromStr` reads what its `Display` writes.
use sisa_messaging_rs.Prelude.{
  ℕ, ◌≤◌, ◌≡◌, refl, ap, sym, ◌∙◌, true, [], ◌∷◌, ◌++◌, some, ok, arith, leb, ltb,
}
use sisa_messaging_rs.Prelude.Int.{ℤ, pos, ◌≤ℤ◌}
use sisa_messaging_rs.Prelude.Lists.{all_of}
use sisa_messaging_rs.Prelude.Text.{Text}
use sisa_messaging_rs.Core.Time.Calendar.{CivilDate, date_from_days, days_from_date, days_in_month}
use sisa_messaging_rs.Core.Time.Calendar.Bounds.{IsDate, date_from_days-IsDate}
use sisa_messaging_rs.Core.Time.Calendar.Inverse.{days_from_date-date_from_days}
use sisa_messaging_rs.Core.Time.Digits.{number, padded_ℤ}
use sisa_messaging_rs.Core.Time.Digits.Fixed.{fixed, padded-fixed}
use sisa_messaging_rs.Core.Time.Digits.Fields.{number-fixed, bytes-ascii}
use sisa_messaging_rs.Core.Time.Date
use sisa_messaging_rs.Core.Time.Date.{
  Date, civil_text, first_day, last_day, parse_date, from_str, to_string,
}

-- The ten characters of a date of years 0000 to 9999.
abbrev pub date_text : ℕ → ℕ → ℕ → Text
date_text y m d = fixed 4 y ++ (b'-' ∷ (fixed 2 m ++ (b'-' ∷ fixed 2 d)))

pub days_in_month-bound : (y : ℤ) (m : ℕ) → days_in_month y m ≤ 31
unfolding days_in_month
days_in_month-bound y m = ground arith

pub civil_text-IsDate :
    (c : CivilDate) (v : IsDate c) → civil_text c ≡ date_text v.year c.month c.day
unfolding civil_text padded_ℤ
civil_text-IsDate c v =
    rw
      (
        v.year_eq,
        padded-fixed 3 v.year (omega (arith, v.year_bound)),
        padded-fixed 1 c.month (omega (arith, v.month_last)),
        padded-fixed 1 c.day (omega (arith, v.day_last, days_in_month-bound (pos v.year) c.month)),
      )
      refl

-- The three fields of a date, before anything that follows it.
pub read_date :
    (y m d : ℕ) (rest : Text)
    → y ≤ 9_999
    → m ≤ 99
    → d ≤ 99
    → (number (date_text y m d ++ rest) 0 4 ≡ some y)
      × (number (date_text y m d ++ rest) 5 7 ≡ some m)
      × (number (date_text y m d ++ rest) 8 10 ≡ some d)
unfolding fixed
read_date y m d rest hy hm hd = (
  number-fixed [] (b'-' ∷ (fixed 2 m ++ (b'-' ∷ (fixed 2 d ++ rest)))) 4 y (omega arith),
  number-fixed (fixed 4 y ++ (b'-' ∷ [])) (b'-' ∷ (fixed 2 d ++ rest)) 2 m (omega arith),
  number-fixed (fixed 4 y ++ (b'-' ∷ (fixed 2 m ++ (b'-' ∷ [])))) rest 2 d (omega arith),
)

pub date_text-ascii : (y m d : ℕ) → all_of (λ c. ltb c 0x80) (date_text y m d) ≡ true
unfolding fixed
date_text-ascii y m d = ground arith

-- The days that a `Date` holds, those of years 0000 to 9999.
pub record IsInYears (date : Date) : Type 0 where
  pub low : first_day ≤ℤ date.days
  pub high : date.days ≤ℤ last_day

new-IsDate :
    (days : ℤ) (v : IsDate (date_from_days days))
    → Date.new v.year (date_from_days days).month (date_from_days days).day
      ≡ some (record { days = days })
unfolding Date.new
new-IsDate days v =
    let y : leb v.year 9_999 ≡ true = ground (arith, v.year_bound) in
    let m1 : leb 1 (date_from_days days).month ≡ true = ground (arith, v.month_first) in
    let m2 : leb (date_from_days days).month 12 ≡ true = ground (arith, v.month_last) in
    let d1 : leb 1 (date_from_days days).day ≡ true = ground (arith, v.day_first) in
    let d2 : leb (date_from_days days).day (days_in_month (pos v.year) (date_from_days days).month)
        ≡ true =
      ground (arith, v.day_last) in
    let back : days_from_date (pos v.year) (date_from_days days).month (date_from_days days).day
        ≡ days =
      ap (λ y. days_from_date y (date_from_days days).month (date_from_days days).day)
        (sym v.year_eq)
      ∙ days_from_date-date_from_days days in
    rw (y, m1, m2, d1, d2, back) refl

parse_date-IsDate :
    (days : ℤ) (v : IsDate (date_from_days days))
    → parse_date (date_text v.year (date_from_days days).month (date_from_days days).day)
      ≡ some (record { days = days })
unfolding parse_date fixed
parse_date-IsDate days v =
    let c = date_from_days days in
    let small = days_in_month-bound (pos v.year) c.month in
    let reads =
      read_date v.year c.month c.day [] v.year_bound (omega (arith, v.month_last))
        (omega (arith, v.day_last, small)) in
    rw (reads.0, reads.1, reads.2) (new-IsDate days v)

-- Every date of years 0000 to 9999 is read back from its text.
pub from_str-to_string_date : (date : Date) → IsInYears date → from_str (to_string date) ≡ ok date
unfolding from_str to_string
from_str-to_string_date date inside =
    let v = date_from_days-IsDate date.days inside.low inside.high in
    let c = date_from_days date.days in
    rw
      (
        civil_text-IsDate c v,
        bytes-ascii (date_text v.year c.month c.day) (date_text-ascii v.year c.month c.day),
        parse_date-IsDate date.days v,
      )
      refl
