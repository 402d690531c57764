-- ===== src/Core/Time/Digits.antt =====
-- crates/core/src/time.rs: reading the digits of a field, and what `format!` writes for `{:04}`.
pub mod Fixed
pub mod Fields
use sisa_messaging_rs.Prelude.{
  ℕ, zero, suc, ◌+◌, ◌-◌, ◌*◌, ◌/◌, ◌%◌, List, [], ◌∷◌, ◌++◌, Option, none, some, leb, ltb,
  if◌then◌else◌,
}
use sisa_messaging_rs.Prelude.Lists.{length, take, drop, replicate}
use sisa_messaging_rs.Prelude.Int.{ℤ, pos, negsuc}
use sisa_messaging_rs.Prelude.Text.{Text, is_digit}

-- The `try_fold` of `number`. At most four digits are read, so the `u32` total does not wrap.
unfoldable pub fold_digits : ℕ → List ℕ → Option ℕ
fold_digits total [] = some total
fold_digits total (b ∷ bs) =
    let rest = fold_digits (total * 10 + (b - b'0')) bs in if is_digit b then rest else none

-- `text.get(start..end)`, for `start` at most `end`.
abbrev pub slice : List ℕ → ℕ → ℕ → Option (List ℕ)
slice bs start end = if leb end (length bs) then some (take (end - start) (drop start bs)) else none

abbrev fold_slice : Option (List ℕ) → Option ℕ
fold_slice none = none
fold_slice (some digits) = fold_digits 0 digits

unfoldable pub number : List ℕ → ℕ → ℕ → Option ℕ
unfolding fold_digits
number bs start end = fold_slice (slice bs start end)

-- The decimal digits of a number, in front of `acc`. The fuel is above the number, so it suffices.
unfoldable pub decimal_from : ℕ → ℕ → Text → Text
decimal_from zero n acc = acc
decimal_from (suc fuel) n acc =
    let rest = decimal_from fuel (n / 10) ((b'0' + n % 10) ∷ acc) in
    if ltb n 10 then (b'0' + n) ∷ acc else rest

-- `n.to_string()`.
unfoldable pub decimal : ℕ → Text
unfolding decimal_from
decimal n = decimal_from (suc n) n []

-- `{n:0width$}`.
unfoldable pub padded : ℕ → ℕ → Text
unfolding decimal
padded width n = let s = decimal n in replicate (width - length s) b'0' ++ s

-- The same of an `i64`: the sign counts as a place.
unfoldable pub padded_ℤ : ℕ → ℤ → Text
unfolding padded
padded_ℤ width (pos n) = padded width n
padded_ℤ width (negsuc n) = b'-' ∷ padded (width - 1) (suc n)
