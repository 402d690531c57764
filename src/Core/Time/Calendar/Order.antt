-- ===== src/Core/Time/Calendar/Order.antt =====
-- crates/core/src/time.rs: the months of the calendar follow each other, so a day is of one month.
use sisa_messaging_rs.Prelude.{
  ℕ, zero, suc, ◌+◌, ◌*◌, ◌/◌, ◌%◌, ◌≤◌, ◌<◌, ◌≡◌, ◌≢◌, ◌-◌, refl, ◌∙◌, sym, subst, ap, ◌==◌, arith,
  Bool-cases, ==_iff, inl, inr,
}
use sisa_messaging_rs.Prelude.Int.{ℤ, pos, pos_part, ◌+ℤ◌, ◌≤ℤ◌, ◌<ℤ◌, int_laws}
use sisa_messaging_rs.Core.Time.Calendar.{CivilDate, days_from_date, days_in_month}
use sisa_messaging_rs.Core.Time.Calendar.Bounds.{IsDate}
use sisa_messaging_rs.Core.Time.Calendar.Months.{next_first, month_end, month-start, month-end}

-- The first day of the month `k`, counted from January of year 0.
first_of : ℕ → ℤ
first_of k = days_from_date (pos (k / 12)) (k % 12 + 1) 1

next_first-first_of : (k : ℕ) → next_first (pos (k / 12)) (k % 12 + 1) ≡ first_of (suc k)
unfolding first_of
next_first-first_of k = elim (Bool-cases (k % 12 + 1 == 12)) [
  | inl e ↦
      let december : k % 12 + 1 ≡ 12 = (==_iff (k % 12 + 1) 12).0 e in
      let year : suc k / 12 ≡ k / 12 + 1 = omega arith in
      let month : suc k % 12 ≡ 0 = omega arith in
      rw (e, year, month) (ap (λ (y : ℤ). days_from_date y 1 1) (pos_suc (k / 12)))
  | inr e ↦
      let earlier : k % 12 + 1 ≢ 12 = λ x. cc ((==_iff (k % 12 + 1) 12).1 x, e) in
      let year : suc k / 12 ≡ k / 12 = omega arith in
      let month : suc k % 12 ≡ k % 12 + 1 = omega arith in rw (e, year, month) refl
]
  where
    pos_suc : (y : ℕ) → pos y +ℤ pos 1 ≡ pos (y + 1)
    pos_suc y = grind int_laws

days_in_month-first : (y : ℤ) (m : ℕ) → 1 ≤ days_in_month y m
unfolding days_in_month
days_in_month-first y m = ground arith

first_of-suc : (k : ℕ) → first_of k <ℤ first_of (suc k)
first_of-suc k =
    subst (λ (x : ℤ). first_of k <ℤ x) (next_first-first_of k)
      (unfold first_of in
        month_end (k / 12) (k % 12 + 1) 1 (omega arith) (omega arith)
          (days_in_month-first (pos (k / 12)) (k % 12 + 1)))

first_of-le : (n i j : ℕ) → j ≡ n + i → first_of i ≤ℤ first_of j
first_of-le zero i j e = let same : j ≡ i = omega arith in rw same (omega arith)
first_of-le (suc n) i j e =
    let same : j ≡ suc (n + i) = omega arith in
    let step = first_of-le n i (n + i) refl in rw same (omega (arith, step, first_of-suc (n + i)))

not_later : (i j : ℕ) (d : ℤ) → d <ℤ first_of (suc i) → first_of j ≤ℤ d → ¬ (i < j)
not_later i j d k low h = omega (arith, k, low, first_of-le (j - suc i) (suc i) j (omega arith))

-- A day between the first days of two months is of one month only.
month_unique :
    (i j : ℕ) (d : ℤ)
    → first_of i ≤ℤ d
    → d <ℤ first_of (suc i)
    → first_of j ≤ℤ d
    → d <ℤ first_of (suc j)
    → i ≡ j
month_unique i j d a b a' b' = omega (arith, not_later i j d b a', not_later j i d b' a)

month_index : CivilDate → ℕ
month_index c = pos_part c.year * 12 + (c.month - 1)

month_index-parts :
    (c : CivilDate)
    → IsDate c
    → (pos (month_index c / 12) ≡ c.year) × (month_index c % 12 + 1 ≡ c.month)
unfolding month_index
month_index-parts c d =
    let year : (pos_part c.year * 12 + (c.month - 1)) / 12 ≡ pos_part c.year =
      omega (arith, d.month_first, d.month_last) in
    (
      rw year (ap (λ (y : ℤ). pos (pos_part y)) d.year_eq ∙ sym d.year_eq),
      omega (arith, d.month_first, d.month_last),
    )

first_of-month :
    (c : CivilDate) → IsDate c → first_of (month_index c) ≡ days_from_date c.year c.month 1
unfolding first_of
first_of-month c d = let (year, month) = month_index-parts c d in rw (year, month) refl

first_of-next :
    (c : CivilDate) → IsDate c → first_of (suc (month_index c)) ≡ next_first c.year c.month
first_of-next c d =
    let (year, month) = month_index-parts c d in
    sym (next_first-first_of (month_index c)) ∙ (rw (year, month) refl)

-- A day from a month's first day to before the next month's has the same month's first day, and the
-- same next month's.
pub same_month :
    (c other : CivilDate)
    → IsDate c
    → IsDate other
    → days_from_date c.year c.month 1 ≤ℤ days_from_date other.year other.month other.day
    → days_from_date other.year other.month other.day <ℤ next_first c.year c.month
    → (days_from_date other.year other.month 1 ≡ days_from_date c.year c.month 1)
      × (next_first other.year other.month ≡ next_first c.year c.month)
same_month c other d o low high =
    let x = days_from_date other.year other.month other.day in
    let i = month_index c in
    let j = month_index other in
    let e : i ≡ j =
      month_unique i j x (rw (first_of-month c d) low) (rw (first_of-next c d) high)
        (rw (first_of-month other o) (month-start other o))
        (rw (first_of-next other o) (month-end other o)) in
    (
      sym (first_of-month other o) ∙ sym (ap first_of e) ∙ first_of-month c d,
      sym (first_of-next other o) ∙ sym (ap (λ k. first_of (suc k)) e) ∙ first_of-next c d,
    )
