-- ===== src/Core/Time/Calendar/Months.antt =====
-- crates/core/src/time.rs: the days of a month stand between its first day and the next month's.
use sisa_messaging_rs.Prelude.{
  ℕ, zero, suc, ◌+◌, ◌-◌, ◌*◌, ◌/◌, ◌%◌, ◌≤◌, ◌<◌, ◌≡◌, ◌≢◌, refl, sym, subst, ap, ◌==◌,
  if◌then◌else◌, arith, Bool-cases, ==_iff, inl, inr,
}
use sisa_messaging_rs.Prelude.Int.{
  ℤ, pos, ◌+ℤ◌, ◌-ℤ◌, ◌*ℕ◌, ◌≤ℤ◌, ◌<ℤ◌, div_euclid, rem_euclid, int_laws,
}
use sisa_messaging_rs.Core.Time.Calendar.{
  CivilDate, days_from_date, days_in_month, is_leap, january_or_february,
}
use sisa_messaging_rs.Core.Time.Calendar.Bounds.{IsDate}

-- The days of year `y`, counted from March, before its day `doy`.
abbrev count : ℕ → ℕ → ℕ
count y doy = y / 400 * 146_097 + (y % 400 * 365 + y % 400 / 4 - y % 400 / 100 + doy)

abbrev day_of_year : ℕ → ℕ → ℕ
day_of_year month day = (153 * ((month + 9) % 12) + 2) / 5 + day - 1

pos_sum : (a b n : ℕ) → (pos a *ℕ n) +ℤ pos b ≡ pos (a * n + b)
unfolding ◌+ℤ◌ ◌*ℕ◌
pos_sum a b n = ground arith

days_from_date-count :
    (year : ℤ) (y month day : ℕ)
    → year -ℤ pos (january_or_february month) ≡ pos y
    → days_from_date year month day ≡ pos (count y (day_of_year month day)) -ℤ pos 719_468
unfolding days_from_date div_euclid rem_euclid
days_from_date-count year y month day e =
    rw
      (
        e,
        pos_sum (y / 400) (y % 400 * 365 + y % 400 / 4 - y % 400 / 100 + day_of_year month day)
            146_097,
      )
      refl

shifted-lt : (a b : ℕ) → a < b → (pos a -ℤ pos 719_468) <ℤ (pos b -ℤ pos 719_468)
shifted-lt a b h = omega int_laws

-- Within a year counted from March, the day of the year decides.
base_of : ℤ → ℕ
base_of z = rem_euclid z 400 * 365 + rem_euclid z 400 / 4 - rem_euclid z 400 / 100

days_from_date-base :
    (year z : ℤ) (month day : ℕ)
    → year -ℤ pos (january_or_february month) ≡ z
    → days_from_date year month day
      ≡ ((div_euclid z 400 *ℕ 146_097) +ℤ pos (base_of z + day_of_year month day)) -ℤ pos 719_468
unfolding days_from_date base_of
days_from_date-base year z month day e = rw e refl

shifted : (a : ℤ) (b c : ℕ) → b < c → ((a +ℤ pos b) -ℤ pos 719_468) <ℤ ((a +ℤ pos c) -ℤ pos 719_468)
shifted a b c h = omega int_laws

same_year :
    (year year' z : ℤ) (month month' day : ℕ)
    → year -ℤ pos (january_or_february month) ≡ z
    → year' -ℤ pos (january_or_february month') ≡ z
    → day_of_year month day < day_of_year month' 1
    → days_from_date year month day <ℤ days_from_date year' month' 1
same_year year year' z month month' day e e' h =
    rw (days_from_date-base year z month day e, days_from_date-base year' z month' 1 e')
      (shifted ((div_euclid z 400) *ℕ 146_097) (base_of z + day_of_year month day)
        (base_of z + day_of_year month' 1) (omega arith))

day_of_year-lt :
    (year : ℤ) (m d : ℕ)
    → 1 ≤ m
    → m ≤ 11
    → m ≢ 2
    → d ≤ days_in_month year m
    → day_of_year m d < day_of_year (m + 1) 1
unfolding days_in_month
day_of_year-lt year m d h k ne b = ground arith

day_of_year-december :
    (year : ℤ) (d : ℕ) → d ≤ days_in_month year 12 → day_of_year 12 d < day_of_year 1 1
unfolding days_in_month
day_of_year-december year d b = omega arith

february_0 : (d : ℕ) → d ≤ 29 → days_from_date (pos 0) 2 d <ℤ days_from_date (pos 0) 3 1
unfolding days_from_date ◌-ℤ◌ ◌+ℤ◌ ◌*ℕ◌ div_euclid rem_euclid
february_0 d h = ground arith

february_length :
    (y : ℕ)
    → days_in_month (pos (suc y)) 2 + y % 400 / 4 + (y % 400 + 1) / 100
      ≤ 28 + (y % 400 + 1) / 4 + y % 400 / 100 + (y % 400 + 1) / 400
unfolding days_in_month is_leap rem_euclid
february_length y = ground arith

february_count : (y d : ℕ) → d ≤ days_in_month (pos (suc y)) 2 → count y (336 + d) < count (suc y) 0
february_count y d h = omega (arith, february_length y)

february :
    (y d : ℕ)
    → d ≤ days_in_month (pos (suc y)) 2
    → days_from_date (pos (suc y)) 2 d <ℤ days_from_date (pos (suc y)) 3 1
february y d h =
    let e : pos (suc y) -ℤ pos 1 ≡ pos y = back y in
    let e' : pos (suc y) -ℤ pos 0 ≡ pos (suc y) = same (suc y) in
    rw
      (
        days_from_date-count (pos (suc y)) y 2 d e,
        days_from_date-count (pos (suc y)) (suc y) 3 1 e',
      )
      (shifted-lt (count y (day_of_year 2 d)) (count (suc y) (day_of_year 3 1))
        (omega (arith, february_count y d h)))
  where
    back : (n : ℕ) → pos (suc n) -ℤ pos 1 ≡ pos n
    back n = grind int_laws

    same : (n : ℕ) → pos n -ℤ pos 0 ≡ pos n
    same n = grind int_laws

-- The first day of the next month, as `first_of_next_month` finds it.
abbrev pub next_first : ℤ → ℕ → ℤ
next_first year month =
    if month == 12 then days_from_date (year +ℤ pos 1) 1 1 else days_from_date year (month + 1) 1

add_sub : (year : ℤ) → (year +ℤ pos 1) -ℤ pos 1 ≡ year -ℤ pos 0
add_sub year = grind int_laws

leap_0 : (d : ℕ) → d ≤ days_in_month (pos 0) 2 → d ≤ 29
unfolding days_in_month is_leap rem_euclid
leap_0 d h = omega arith

february-end :
    (n d : ℕ)
    → d ≤ days_in_month (pos n) 2
    → days_from_date (pos n) 2 d <ℤ days_from_date (pos n) 3 1
february-end zero d h = february_0 d (leap_0 d h)
february-end (suc y) d h = february y d h

same_side : (m : ℕ) → 1 ≤ m → m ≤ 11 → m ≢ 2 → january_or_february (m + 1) ≡ january_or_february m
same_side m h k ne = ground arith

pub month_end :
    (n m d : ℕ)
    → 1 ≤ m
    → m ≤ 12
    → d ≤ days_in_month (pos n) m
    → days_from_date (pos n) m d <ℤ next_first (pos n) m
month_end n m d low high h = elim (Bool-cases (m == 12)) [
  | inl e ↦
      let is12 : m ≡ 12 = (==_iff m 12).0 e in
      rw is12 (
        same_year (pos n) (pos n +ℤ pos 1) (pos n -ℤ pos 0) 12 1 d refl (add_sub (pos n))
          (day_of_year-december (pos n) d (rw (sym is12) h)))
  | inr not12 ↦ elim (Bool-cases (m == 2)) [
    | inl e ↦ let is2 : m ≡ 2 = (==_iff m 2).0 e in rw is2 (february-end n d (rw (sym is2) h))
    | inr not2 ↦
        let ne12 : m ≢ 12 = λ x. cc ((==_iff m 12).1 x, not12) in
        let ne2 : m ≢ 2 = λ x. cc ((==_iff m 2).1 x, not2) in
        rw not12 (
          same_year (pos n) (pos n) (pos n -ℤ pos (january_or_february m)) m (m + 1) d refl
            (ap (λ (j : ℕ). pos n -ℤ pos j) (same_side m low (omega arith) ne2))
            (day_of_year-lt (pos n) m d low (omega arith) ne2 h))
  ]
]

pub month-end :
    (c : CivilDate) → IsDate c → days_from_date c.year c.month c.day <ℤ next_first c.year c.month
month-end c d =
    subst (λ (y : ℤ). days_from_date y c.month c.day <ℤ next_first y c.month) (sym d.year_eq)
      (month_end d.year c.month c.day d.month_first d.month_last d.day_last)

pub month-start :
    (c : CivilDate)
    → IsDate c
    → days_from_date c.year c.month 1 ≤ℤ days_from_date c.year c.month c.day
month-start c d =
    let z = c.year -ℤ pos (january_or_february c.month) in
    rw
      (days_from_date-base c.year z c.month 1 refl, days_from_date-base c.year z c.month c.day refl)
      (shifted_le ((div_euclid z 400) *ℕ 146_097) (base_of z + day_of_year c.month 1)
        (base_of z + day_of_year c.month c.day) (omega (arith, d.day_first)))
  where
    shifted_le :
        (a : ℤ) (b c : ℕ) → b ≤ c → ((a +ℤ pos b) -ℤ pos 719_468) ≤ℤ ((a +ℤ pos c) -ℤ pos 719_468)
    shifted_le a b c h = omega int_laws
