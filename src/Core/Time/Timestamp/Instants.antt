-- ===== src/Core/Time/Timestamp/Instants.antt =====
-- crates/core/src/time.rs: the instants that the constructors of `Timestamp` make.
use sisa_messaging_rs.Prelude.{◌≡◌, arith}
use sisa_messaging_rs.Prelude.Int.{
  ℤ, pos, negsuc, ◌≤ℤ◌, ◌+ℤ◌, ◌-ℤ◌, ◌*ℕ◌, div_euclid, rem_euclid, clamp,
}
use sisa_messaging_rs.Core.Time.Calendar.{nanos_per_second}
use sisa_messaging_rs.Core.Time.Timestamp.{from_unix_nanos, unix_nanos}
use sisa_messaging_rs.Core.Time.Timestamp.RoundTrip.{IsInstant}

abbrev pub first_nano : ℤ
first_nano = negsuc 62_167_219_199_999_999_999

abbrev pub last_nano : ℤ
last_nano = pos 253_402_300_799_999_999_999

clamp_bounds :
    (n : ℤ)
    → (first_nano ≤ℤ clamp n first_nano last_nano) × (clamp n first_nano last_nano ≤ℤ last_nano)
unfolding clamp
clamp_bounds n = ground arith

split_bounds :
    (n : ℤ)
    → first_nano ≤ℤ n
    → n ≤ℤ last_nano
    → IsInstant
        (record { seconds = div_euclid n nanos_per_second; nanos = rem_euclid n nanos_per_second })
unfolding div_euclid rem_euclid
split_bounds (pos n) low high = record {
  low = omega arith;
  high = omega arith;
  nanos = omega arith;
}
split_bounds (negsuc n) low high = record {
  low = omega arith;
  high = omega arith;
  nanos = omega arith;
}

-- Any count of nanoseconds makes an instant of years 0000 to 9999.
pub from_unix_nanos-IsInstant : (n : ℤ) → IsInstant (from_unix_nanos n)
unfolding from_unix_nanos ◌*ℕ◌ ◌-ℤ◌
from_unix_nanos-IsInstant n =
    split_bounds (clamp n first_nano last_nano) (clamp_bounds n).0 (clamp_bounds n).1

join_back :
    (n : ℤ)
    → div_euclid n nanos_per_second *ℕ nanos_per_second +ℤ pos (rem_euclid n nanos_per_second) ≡ n
unfolding div_euclid rem_euclid ◌*ℕ◌ ◌+ℤ◌
join_back (pos n) = ground arith
join_back (negsuc n) = ground arith

-- The nanoseconds of an instant are those that it was made of, or the nearest of years 0000 to 9999.
pub unix_nanos-from_unix_nanos :
    (n : ℤ) → unix_nanos (from_unix_nanos n) ≡ clamp n first_nano last_nano
unfolding unix_nanos from_unix_nanos ◌*ℕ◌ ◌-ℤ◌
unix_nanos-from_unix_nanos n = join_back (clamp n first_nano last_nano)
