-- ===== src/Core/Time/Date.antt =====
-- crates/core/src/time.rs: `Date`.
pub mod RoundTrip
use sisa_messaging_rs.Prelude.{
  ℕ, ◌+◌, ◌-◌, ◌^◌, Bool, false, ◌&&◌, List, ◌∷◌, ◌++◌, Option, none, some, Result, ok_or, leb,
  ◌==◌, if◌then◌else◌,
}
use sisa_messaging_rs.Prelude.Options.{◌>>=◌, ◌>>◌, guard}
use sisa_messaging_rs.Prelude.Lists.{length, get_elem?}
use sisa_messaging_rs.Prelude.Int.{
  ℤ, pos, negsuc, ◌+ℤ◌, ◌-ℤ◌, pos_part, rem_euclid, clamp, ltb_ℤ, leb_ℤ,
}
use sisa_messaging_rs.Prelude.Text.{Text, codes, bytes}
use sisa_messaging_rs.Core.Error.{EnvelopeError, invalid}
use sisa_messaging_rs.Core.Time.Calendar.{CivilDate, date_from_days, days_from_date, days_in_month}
use sisa_messaging_rs.Core.Time.Digits.{number, padded, padded_ℤ}

pub record Date : Type 0 where
  pub days : ℤ

-- `FIRST_SECOND / SECONDS_PER_DAY` and `END_SECOND / SECONDS_PER_DAY - 1`.
abbrev pub first_day : ℤ
first_day = negsuc 719_527

abbrev pub last_day : ℤ
last_day = pos 2_932_896

unfoldable pub from_days : ℤ → Date
from_days days = record { days = clamp days first_day last_day }

abbrev pub in_range : ℕ → ℕ → ℕ → Bool
in_range lo hi n = leb lo n && leb n hi

unfoldable pub new : ℕ → ℕ → ℕ → Option Date
new year month day =
    if leb year 9_999 && (in_range 1 12 month && in_range 1 (days_in_month (pos year) month) day)
    then some (record { days = days_from_date (pos year) month day })
    else none

-- The year is not negative within years 0000 to 9999, so the cast to `u32` keeps it.
unfoldable pub year : Date → ℕ
year d = pos_part (date_from_days d.days).year

unfoldable pub month : Date → ℕ
month d = (date_from_days d.days).month

unfoldable pub day : Date → ℕ
day d = (date_from_days d.days).day

-- `i64::saturating_add`.
unfoldable pub saturating_add : ℤ → ℤ → ℤ
saturating_add a b = clamp (a +ℤ b) (negsuc (2 ^ 63 - 1)) (pos (2 ^ 63 - 1))

unfoldable pub add_days : Date → ℤ → Date
add_days d n = from_days (saturating_add d.days n)

unfoldable pub monday : Date → Date
monday d = from_days (d.days -ℤ pos (rem_euclid (d.days +ℤ pos 3) 7))

unfoldable pub first_of_month : Date → Date
first_of_month d = let c = date_from_days d.days in from_days (days_from_date c.year c.month 1)

unfoldable pub first_of_next_month : Date → Date
first_of_next_month d =
    let c = date_from_days d.days in
    from_days (
      if c.month == 12
      then days_from_date (c.year +ℤ pos 1) 1 1
      else days_from_date c.year (c.month + 1) 1)

-- `YYYY-MM-DD` of a civil date, which `Timestamp` writes too.
unfoldable pub civil_text : CivilDate → Text
civil_text c = padded_ℤ 4 c.year ++ (b'-' ∷ (padded 2 c.month ++ (b'-' ∷ padded 2 c.day)))

unfoldable pub to_string : Date → Text
to_string d = civil_text (date_from_days d.days)

abbrev pub has_byte : List ℕ → ℕ → ℕ → Bool
has_byte bs at b = elim (get_elem? bs at) [ none ↦ false | some c ↦ c == b ]

unfoldable pub parse_date : List ℕ → Option Date
parse_date bs = do
  guard ((length bs == 10) && (has_byte bs 4 b'-' && has_byte bs 7 b'-'))
  y ← number bs 0 4
  m ← number bs 5 7
  d ← number bs 8 10
  new y m d

unfoldable pub from_str : Text → Result EnvelopeError Date
from_str s = ok_or (parse_date (bytes s)) (invalid (codes "date") "not a YYYY-MM-DD date")

-- `Ord`: dates compare by their days.
abbrev pub lt_date : Date → Date → Bool
lt_date a b = ltb_ℤ a.days b.days

abbrev pub le_date : Date → Date → Bool
le_date a b = leb_ℤ a.days b.days
