-- ===== src/Core/Time/Timestamp/RoundTrip.antt =====
-- crates/core/src/time.rs: `Timestamp`'s `FromStr` reads what its `Display` writes.
use sisa_messaging_rs.Prelude.{
  ℕ, ◌+◌, ◌*◌, ◌/◌, ◌%◌, ◌^◌, ◌≤◌, ◌<◌, ◌≡◌, refl, Bool, true, List, [], ◌∷◌, ◌++◌, some, ok, arith,
  ltb, ◌==◌, Bool-cases, inl, inr,
}
use sisa_messaging_rs.Prelude.Int.{
  ℤ, pos, negsuc, ◌≤ℤ◌, ◌<ℤ◌, ◌+ℤ◌, ◌-ℤ◌, ◌*ℕ◌, div_euclid, rem_euclid,
}
use sisa_messaging_rs.Prelude.Lists.{all_of}
use sisa_messaging_rs.Prelude.Text.{Text, is_digit}
use sisa_messaging_rs.Core.Time.Calendar.{
  date_from_days, days_in_month, first_second, end_second, seconds_per_day, nanos_per_second,
}
use sisa_messaging_rs.Core.Time.Calendar.Bounds.{IsDate, date_from_days-IsDate}
use sisa_messaging_rs.Core.Time.Calendar.Inverse.{days_from_date-date_from_days}
use sisa_messaging_rs.Core.Time.Digits.Fixed.{fixed, padded-fixed, fixed-digits}
use sisa_messaging_rs.Core.Time.Digits.Fields.{number-fixed, bytes-ascii}
use sisa_messaging_rs.Core.Time.Date.RoundTrip.{
  date_text, civil_text-IsDate, read_date, date_text-ascii, days_in_month-bound,
}
use sisa_messaging_rs.Core.Time.Timestamp.{
  Timestamp, fraction_text, trim_zeros, parse_offset, parse_fields, Fields, fields_in_range,
  utc_seconds, in_years, parse, from_str, to_string,
}
use sisa_messaging_rs.Core.Time.Timestamp.Fraction.{parse_fraction-fraction_text, trim_zeros-digits}

-- What `Timestamp`'s constructors keep: an instant of years 0000 to 9999, in whole nanoseconds.
pub record IsInstant (t : Timestamp) : Type 0 where
  pub low : first_second ≤ℤ t.seconds
  pub high : t.seconds <ℤ end_second
  pub nanos : t.nanos < nanos_per_second

-- The time of a day, from its seconds.
abbrev time_text : ℕ → ℕ → ℕ → Text → Text
time_text h m s rest = b'T' ∷ (fixed 2 h ++ (b':' ∷ (fixed 2 m ++ (b':' ∷ (fixed 2 s ++ rest)))))

abbrev full_text : Fields → Text → Text
full_text f rest = date_text f.year f.month f.day ++ time_text f.hour f.minute f.second rest

abbrev fields_of :
    (t : Timestamp) → IsDate (date_from_days (div_euclid t.seconds seconds_per_day)) → Fields
fields_of t v =
    let c = date_from_days (div_euclid t.seconds seconds_per_day) in
    let s = rem_euclid t.seconds seconds_per_day in
    record {
      year = v.year;
      month = c.month;
      day = c.day;
      hour = s / 3_600;
      minute = s / 60 % 60;
      second = s % 60;
    }

second_of_day-bound : (s : ℤ) → rem_euclid s seconds_per_day < 86_400
unfolding rem_euclid
second_of_day-bound (pos n) = omega arith
second_of_day-bound (negsuc n) = omega arith

-- What `Display` writes, field by field.
to_string-fields :
    (t : Timestamp) (v : IsDate (date_from_days (div_euclid t.seconds seconds_per_day)))
    → to_string t ≡ full_text (fields_of t v) (fraction_text t.nanos ++ (b'Z' ∷ []))
unfolding to_string
to_string-fields t v =
    let c = date_from_days (div_euclid t.seconds seconds_per_day) in
    let s = rem_euclid t.seconds seconds_per_day in
    let small = second_of_day-bound t.seconds in
    rw
      (
        civil_text-IsDate c v,
        padded-fixed 1 (s / 3_600) (omega arith),
        padded-fixed 1 (s / 60 % 60) (omega arith),
        padded-fixed 1 (s % 60) (omega arith),
      )
      refl

-- Fields that name a date and a time of day.
record InRange (f : Fields) : Type 0 where
  year : f.year ≤ 9_999
  month : (1 ≤ f.month) × (f.month ≤ 12)
  day : (1 ≤ f.day) × (f.day ≤ days_in_month (pos f.year) f.month)
  hour : f.hour ≤ 23
  minute : f.minute ≤ 59
  second : f.second ≤ 59

InRange-test : (f : Fields) → InRange f → fields_in_range f ≡ true
InRange-test f v = ground (arith, v.month, v.day, v.hour, v.minute, v.second)

parse_fields-full_text :
    (f : Fields) (rest : Text) → InRange f → parse_fields (full_text f rest) ≡ some f
unfolding parse_fields fixed
parse_fields-full_text f rest v =
    let small = days_in_month-bound (pos f.year) f.month in
    let reads =
      read_date f.year f.month f.day (time_text f.hour f.minute f.second rest) v.year
        (omega (arith, v.month)) (omega (arith, v.day)) in
    let date = date_text f.year f.month f.day in
    let hour =
      number-fixed (date ++ (b'T' ∷ []))
        (b':' ∷ (fixed 2 f.minute ++ (b':' ∷ (fixed 2 f.second ++ rest)))) 2 f.hour
        (omega (arith, v.hour)) in
    let minute =
      number-fixed (date ++ (b'T' ∷ (fixed 2 f.hour ++ (b':' ∷ []))))
        (b':' ∷ (fixed 2 f.second ++ rest)) 2 f.minute (omega (arith, v.minute)) in
    let second =
      number-fixed (date ++ (b'T' ∷ (fixed 2 f.hour ++ (b':' ∷ (fixed 2 f.minute ++ (b':' ∷ []))))))
        rest 2 f.second (omega (arith, v.second)) in
    rw (reads.0, reads.1, reads.2, hour, minute, second) (rw (InRange-test f v) refl)

InRange-fields_of :
    (t : Timestamp) (v : IsDate (date_from_days (div_euclid t.seconds seconds_per_day)))
    → InRange (fields_of t v)
InRange-fields_of t v =
    let small = second_of_day-bound t.seconds in
    record {
      year = v.year_bound;
      month = (v.month_first, v.month_last);
      day = (v.day_first, v.day_last);
      hour = omega arith;
      minute = omega arith;
      second = omega arith;
    }

-- The day of an instant is a day of years 0000 to 9999.
day_low : (s : ℤ) → first_second ≤ℤ s → negsuc 719_527 ≤ℤ div_euclid s seconds_per_day
unfolding div_euclid
day_low (pos n) h = omega arith
day_low (negsuc n) h = omega arith

day_high : (s : ℤ) → s <ℤ end_second → div_euclid s seconds_per_day ≤ℤ pos 2_932_896
unfolding div_euclid
day_high (pos n) h = omega arith
day_high (negsuc n) h = omega arith

-- The seconds, put together again.
seconds_back :
    (s : ℤ)
    → (div_euclid s seconds_per_day *ℕ seconds_per_day
          +ℤ pos (
              rem_euclid s seconds_per_day / 3_600 * 3_600
              + rem_euclid s seconds_per_day / 60 % 60 * 60
              + rem_euclid s seconds_per_day % 60))
        -ℤ pos 0
      ≡ s
unfolding div_euclid rem_euclid ◌+ℤ◌ ◌*ℕ◌ ◌-ℤ◌
seconds_back (pos n) = ground arith
seconds_back (negsuc n) = ground arith

utc_seconds-fields_of :
    (t : Timestamp) (v : IsDate (date_from_days (div_euclid t.seconds seconds_per_day)))
    → utc_seconds (fields_of t v) (pos 0) ≡ t.seconds
unfolding utc_seconds
utc_seconds-fields_of t v =
    let c = date_from_days (div_euclid t.seconds seconds_per_day) in
    rw (← v.year_eq, days_from_date-date_from_days (div_euclid t.seconds seconds_per_day))
      (seconds_back t.seconds)

in_years-IsInstant : (t : Timestamp) → IsInstant t → in_years t.seconds t.nanos ≡ some t
unfolding in_years
in_years-IsInstant t v = ground (arith, v.low, v.high)

all_of-append :
    (p : ℕ → Bool) (xs ys : List ℕ)
    → all_of p xs ≡ true
    → all_of p ys ≡ true
    → all_of p (xs ++ ys) ≡ true
all_of-append p [] ys h k = k
all_of-append p (x ∷ xs) ys h k = ground (arith, all_of-append p xs ys)

digits-ascii : (s : Text) → all_of is_digit s ≡ true → all_of (λ c. ltb c 0x80) s ≡ true
digits-ascii [] h = refl
digits-ascii (c ∷ s) h = ground (arith, digits-ascii s)

fraction_text-ascii : (n : ℕ) → n < 10 ^ 9 → all_of (λ c. ltb c 0x80) (fraction_text n) ≡ true
unfolding fraction_text
fraction_text-ascii n h = elim (Bool-cases (n == 0)) [
  | inl e ↦ rw e refl
  | inr e ↦
      rw (e, padded-fixed 8 n h)
        (digits-ascii (trim_zeros (fixed 9 n)) (trim_zeros-digits (fixed 9 n) (fixed-digits 9 n)))
]

time_text-ascii :
    (h m s : ℕ) (rest : Text)
    → all_of (λ c. ltb c 0x80) rest ≡ true
    → all_of (λ c. ltb c 0x80) (time_text h m s rest) ≡ true
unfolding fixed
time_text-ascii h m s rest a = ground arith

full_text-ascii :
    (f : Fields) (n : ℕ)
    → n < 10 ^ 9
    → all_of (λ c. ltb c 0x80) (full_text f (fraction_text n ++ (b'Z' ∷ []))) ≡ true
full_text-ascii f n h =
    let rest = fraction_text n ++ (b'Z' ∷ []) in
    all_of-append (λ c. ltb c 0x80) (date_text f.year f.month f.day)
      (time_text f.hour f.minute f.second rest) (date_text-ascii f.year f.month f.day)
      (time_text-ascii f.hour f.minute f.second rest (
        all_of-append (λ c. ltb c 0x80) (fraction_text n) (b'Z' ∷ []) (fraction_text-ascii n h)
          refl))

-- Every instant of years 0000 to 9999 is read back from its text.
pub from_str-to_string : (t : Timestamp) → IsInstant t → from_str (to_string t) ≡ ok t
unfolding from_str parse parse_offset fixed
from_str-to_string t inside =
    let v =
      date_from_days-IsDate (div_euclid t.seconds seconds_per_day) (day_low t.seconds inside.low)
        (day_high t.seconds inside.high) in
    let f = fields_of t v in
    let rest = fraction_text t.nanos ++ (b'Z' ∷ []) in
    rw
      (
        to_string-fields t v,
        bytes-ascii (full_text f rest) (full_text-ascii f t.nanos inside.nanos),
        parse_fields-full_text f rest (InRange-fields_of t v),
        parse_fraction-fraction_text t.nanos inside.nanos,
        utc_seconds-fields_of t v,
        in_years-IsInstant t inside,
      )
      refl
