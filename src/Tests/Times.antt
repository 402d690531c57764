-- ===== src/Tests/Times.antt =====
-- Dates and instants, written and read.
use sisa_messaging_rs.Prelude.{arith}
use sisa_messaging_rs.Core.Time.Calendar.Bounds.{IsDate, date_from_days-IsDate}
use sisa_messaging_rs.Core.Time.Date.RoundTrip.{from_str-to_string_date}
use sisa_messaging_rs.Core.Time.Timestamp.RoundTrip.{from_str-to_string}
use sisa_messaging_rs.Core.Time.Timestamp.Instants.{
  unix_nanos-from_unix_nanos, first_nano, last_nano,
}
use sisa_messaging_rs.Prelude.Int.{clamp}
use sisa_messaging_rs.Core.Time.Calendar.Inverse.{days_from_date-date_from_days}
use sisa_messaging_rs.Core.Time.Calendar.{days_in_month, is_leap}
use sisa_messaging_rs.Core.Time.Timestamp
use sisa_messaging_rs.Core.Time.Date
use sisa_messaging_rs.Core.Time.Digits
use sisa_messaging_rs.Prelude.{ok}
use sisa_messaging_rs.Prelude.Text.{codes, bytes}
use sisa_messaging_rs.Prelude.Int.{◌-ℤ◌}
use sisa_messaging_rs.Prelude.{◌≡◌, refl}
use sisa_messaging_rs.Prelude.Int.{pos, negsuc, ◌+ℤ◌, ◌-ℤ◌, ◌*ℕ◌, div_euclid, rem_euclid}
use sisa_messaging_rs.Core.Time.Calendar.{
  date_from_days, days_from_date, year_of_era, days_before_year, month_from_march, calendar_month,
}

test_epoch : date_from_days (pos 0) ≡ record { year = pos 1970; month = 1; day = 1 }
unfolding date_from_days year_of_era days_before_year month_from_march calendar_month ◌+ℤ◌ ◌*ℕ◌
    div_euclid rem_euclid
test_epoch = refl

test_leap_day : date_from_days (pos 11_016) ≡ record { year = pos 2000; month = 2; day = 29 }
unfolding date_from_days year_of_era days_before_year month_from_march calendar_month ◌+ℤ◌ ◌*ℕ◌
    div_euclid rem_euclid
test_leap_day = refl

test_first_day : days_from_date (pos 0) 1 1 ≡ negsuc 719_527
unfolding days_from_date ◌+ℤ◌ ◌-ℤ◌ ◌*ℕ◌ div_euclid rem_euclid
test_first_day = refl

abbrev instant : Timestamp.Timestamp
instant = record { seconds = pos 1_700_000_000; nanos = 0 }

test_written : Timestamp.to_string instant ≡ codes "2023-11-14T22:13:20Z"
unfolding date_from_days days_from_date year_of_era days_before_year month_from_march calendar_month
    days_in_month is_leap ◌+ℤ◌ ◌-ℤ◌ ◌*ℕ◌ div_euclid rem_euclid Timestamp.from_str
    Timestamp.to_string Timestamp.parse Timestamp.parse_fields Timestamp.fraction_nanos
    Timestamp.fraction_text Timestamp.in_years Timestamp.offset_of Timestamp.parse_fraction
    Timestamp.parse_offset Timestamp.take_digits Timestamp.trim_zeros Timestamp.utc_seconds
    Date.civil_text Digits.padded_ℤ Digits.padded Digits.decimal Digits.decimal_from Digits.number
    Digits.fold_digits bytes
test_written = refl

pub test_time : Timestamp.from_str (Timestamp.to_string instant) ≡ ok instant
unfolding date_from_days days_from_date year_of_era days_before_year month_from_march calendar_month
    days_in_month is_leap ◌+ℤ◌ ◌-ℤ◌ ◌*ℕ◌ div_euclid rem_euclid Timestamp.from_str
    Timestamp.to_string Timestamp.parse Timestamp.parse_fields Timestamp.fraction_nanos
    Timestamp.fraction_text Timestamp.in_years Timestamp.offset_of Timestamp.parse_fraction
    Timestamp.parse_offset Timestamp.take_digits Timestamp.trim_zeros Timestamp.utc_seconds
    Date.civil_text Digits.padded_ℤ Digits.padded Digits.decimal Digits.decimal_from Digits.number
    Digits.fold_digits bytes
test_time = refl

test_offset :
    Timestamp.from_str (codes "2023-11-15T00:13:20.25+02:00")
    ≡ ok (record { seconds = pos 1_700_000_000; nanos = 250_000_000 })
unfolding date_from_days days_from_date year_of_era days_before_year month_from_march calendar_month
    days_in_month is_leap ◌+ℤ◌ ◌-ℤ◌ ◌*ℕ◌ div_euclid rem_euclid Timestamp.from_str
    Timestamp.to_string Timestamp.parse Timestamp.parse_fields Timestamp.fraction_nanos
    Timestamp.fraction_text Timestamp.in_years Timestamp.offset_of Timestamp.parse_fraction
    Timestamp.parse_offset Timestamp.take_digits Timestamp.trim_zeros Timestamp.utc_seconds
    Date.civil_text Digits.padded_ℤ Digits.padded Digits.decimal Digits.decimal_from Digits.number
    Digits.fold_digits bytes
test_offset = refl

days_from_date-date_from_days_example :
    days_from_date
      (date_from_days (pos 11_016)).year
      (date_from_days (pos 11_016)).month
      (date_from_days (pos 11_016)).day
    ≡ pos 11_016
days_from_date-date_from_days_example = days_from_date-date_from_days (pos 11_016)

date_from_days-IsDate_example : IsDate (date_from_days (pos 11_016))
date_from_days-IsDate_example = date_from_days-IsDate (pos 11_016) (omega arith) (omega arith)

abbrev date : Date.Date
date = record { days = pos 19_675 }

from_str-to_string_date_example : Date.from_str (Date.to_string date) ≡ ok date
from_str-to_string_date_example =
    from_str-to_string_date date (record { low = omega arith; high = omega arith })

from_str-to_string_example : Timestamp.from_str (Timestamp.to_string instant) ≡ ok instant
from_str-to_string_example =
    from_str-to_string instant
      (record { low = omega arith; high = omega arith; nanos = omega arith })

unix_nanos-from_unix_nanos_example :
    Timestamp.unix_nanos (Timestamp.from_unix_nanos (negsuc 4))
    ≡ clamp (negsuc 4) first_nano last_nano
unix_nanos-from_unix_nanos_example = unix_nanos-from_unix_nanos (negsuc 4)
