-- ===== src/Core/Time/Timestamp.antt =====
-- crates/core/src/time.rs: `Timestamp`, and RFC 3339's `date-time`.
pub mod Fraction
pub mod RoundTrip
pub mod Instants
use sisa_messaging_rs.Prelude.{
  ℕ, zero, suc, ◌+◌, ◌-◌, ◌*◌, ◌/◌, ◌%◌, Bool, not, ◌&&◌, ◌||◌, List, [], ◌∷◌, ◌++◌, Option, none,
  some, Result, ok_or, leb, ltb, ◌==◌, if◌then◌else◌,
}
use sisa_messaging_rs.Prelude.Options.{◌>>=◌, ◌>>◌, guard}
use sisa_messaging_rs.Prelude.Lists.{drop}
use sisa_messaging_rs.Prelude.Int.{
  ℤ, pos, ◌+ℤ◌, ◌-ℤ◌, ◌*ℕ◌, neg_ℤ, div_euclid, rem_euclid, clamp, ltb_ℤ, leb_ℤ,
}
use sisa_messaging_rs.Prelude.Text.{Text, codes, bytes, is_digit}
use sisa_messaging_rs.Core.Error.{EnvelopeError, invalid}
use sisa_messaging_rs.Core.Time.Calendar.{
  seconds_per_day, nanos_per_second, first_second, end_second, date_from_days, days_from_date,
  days_in_month,
}
use sisa_messaging_rs.Core.Time.Digits.{number, padded}
use sisa_messaging_rs.Core.Time.Date.{Date, from_days, civil_text, has_byte, in_range}

pub record Timestamp : Type 0 where
  pub seconds : ℤ
  pub nanos : ℕ

unfoldable pub from_unix_nanos : ℤ → Timestamp
from_unix_nanos n =
    let first = first_second *ℕ nanos_per_second in
    let last = (end_second *ℕ nanos_per_second) -ℤ pos 1 in
    let clamped = clamp n first last in
    record {
      seconds = div_euclid clamped nanos_per_second;
      nanos = rem_euclid clamped nanos_per_second;
    }

unfoldable pub date : Timestamp → Date
date t = from_days (div_euclid t.seconds seconds_per_day)

unfoldable pub unix_nanos : Timestamp → ℤ
unix_nanos t = t.seconds *ℕ nanos_per_second +ℤ pos t.nanos

-- `SystemTime::duration_since(UNIX_EPOCH)`: the nanoseconds after the epoch, or those before it.
pub data SystemTime : Type 0 where
  after before : ℕ → SystemTime

unfoldable pub from_system_time : SystemTime → Timestamp
from_system_time (after n) = from_unix_nanos (pos n)
from_system_time (before n) = from_unix_nanos (neg_ℤ (pos n))

-- A character before what is left of the rest: an end of zeros is dropped.
abbrev pub before_rest : ℕ → Text → Text
before_rest c [] = if c == b'0' then [] else c ∷ []
before_rest c (d ∷ rest) = c ∷ (d ∷ rest)

-- `str::trim_end_matches('0')`.
unfoldable pub trim_zeros : Text → Text
trim_zeros [] = []
trim_zeros (c ∷ s) = before_rest c (trim_zeros s)

unfoldable pub fraction_text : ℕ → Text
unfolding trim_zeros
fraction_text nanos = if nanos == 0 then [] else b'.' ∷ trim_zeros (padded 9 nanos)

unfoldable pub to_string : Timestamp → Text
unfolding fraction_text
to_string t =
    let civil = date_from_days (div_euclid t.seconds seconds_per_day) in
    let second_of_day = rem_euclid t.seconds seconds_per_day in
    civil_text civil
    ++ (b'T'
        ∷ (padded 2 (second_of_day / 3_600)
            ++ (b':'
                ∷ (padded 2 (second_of_day / 60 % 60)
                    ++ (b':'
                        ∷ (padded 2 (second_of_day % 60)
                            ++ (fraction_text t.nanos ++ (b'Z' ∷ []))))))))

-- The digits at the front, and what follows them.
unfoldable pub take_digits : List ℕ → List ℕ × List ℕ
take_digits [] = ([], [])
take_digits (b ∷ bs) =
    let (digits, rest) = take_digits bs in if is_digit b then (b ∷ digits, rest) else ([], b ∷ bs)

-- The loop over the places: a place past the digits counts as 0.
unfoldable pub fraction_nanos : ℕ → ℕ → List ℕ → ℕ
fraction_nanos zero nanos digits = nanos
fraction_nanos (suc places) nanos [] = fraction_nanos places (nanos * 10) []
fraction_nanos (suc places) nanos (b ∷ digits) =
    fraction_nanos places (nanos * 10 + (b - b'0')) digits

abbrev nanos_of : List ℕ × List ℕ → Option (ℕ × List ℕ)
nanos_of ([], rest) = none
nanos_of (b ∷ digits, rest) = some (fraction_nanos 9 0 (b ∷ digits), rest)

-- The fraction after the seconds, if there is one, and what follows it.
unfoldable pub parse_fraction : List ℕ → Option (ℕ × List ℕ)
unfolding take_digits fraction_nanos
parse_fraction [] = some (0, [])
parse_fraction (b ∷ bs) = if b == b'.' then nanos_of (take_digits bs) else some (0, b ∷ bs)

-- The seconds of an offset written as `±HH:MM`.
unfoldable pub offset_of : ℕ → List ℕ → Option ℤ
offset_of sign rest = do
  hour ← number rest 1 3
  minute ← number rest 4 6
  guard (not (ltb 23 hour || ltb 59 minute))
  let offset = pos (hour * 3_600 + minute * 60)
  some (if sign == b'-' then neg_ℤ offset else offset)

unfoldable pub parse_offset : List ℕ → Option ℤ
unfolding offset_of
parse_offset (z ∷ []) = if (z == b'Z') || (z == b'z') then some (pos 0) else none
parse_offset (sign ∷ (h1 ∷ (h2 ∷ (colon ∷ (m1 ∷ (m2 ∷ [])))))) =
    if ((sign == b'+') || (sign == b'-')) && (colon == b':')
    then offset_of sign (sign ∷ (h1 ∷ (h2 ∷ (colon ∷ (m1 ∷ (m2 ∷ []))))))
    else none
parse_offset _ = none

-- The fields of the date and the time of day, all of them in range.
pub record Fields : Type 0 where
  pub year : ℕ
  pub month : ℕ
  pub day : ℕ
  pub hour : ℕ
  pub minute : ℕ
  pub second : ℕ

abbrev fields_in_range : Fields → Bool
fields_in_range f =
    in_range 1 12 f.month
    && (in_range 1 (days_in_month (pos f.year) f.month) f.day
        && (leb f.hour 23 && (leb f.minute 59 && leb f.second 59)))

unfoldable pub parse_fields : List ℕ → Option Fields
parse_fields bs = do
  guard (has_byte bs 4 b'-' && (has_byte bs 7 b'-' && (has_byte bs 13 b':' && has_byte bs 16 b':')))
  guard (has_byte bs 10 b'T' || has_byte bs 10 b't')
  year ← number bs 0 4
  month ← number bs 5 7
  day ← number bs 8 10
  hour ← number bs 11 13
  minute ← number bs 14 16
  second ← number bs 17 19
  let fields : Fields = record {
    year = year;
    month = month;
    day = day;
    hour = hour;
    minute = minute;
    second = second;
  }
  guard (fields_in_range fields)
  some fields

unfoldable pub utc_seconds : Fields → ℤ → ℤ
utc_seconds f offset =
    (days_from_date (pos f.year) f.month f.day *ℕ seconds_per_day
      +ℤ pos (f.hour * 3_600 + f.minute * 60 + f.second))
    -ℤ offset

-- An offset can carry a date out of years 0000 to 9999.
unfoldable pub in_years : ℤ → ℕ → Option Timestamp
in_years seconds nanos =
    if leb_ℤ first_second seconds && ltb_ℤ seconds end_second
    then some (record { seconds = seconds; nanos = nanos })
    else none

unfoldable pub parse : List ℕ → Option Timestamp
unfolding in_years
parse bs = do
  fields ← parse_fields bs
  (nanos, rest) ← parse_fraction (drop 19 bs)
  offset ← parse_offset rest
  in_years (utc_seconds fields offset) nanos

unfoldable pub from_str : Text → Result EnvelopeError Timestamp
from_str s = ok_or (parse (bytes s)) (invalid (codes "time") "not an RFC 3339 date-time")
