-- ===== src/Core/Time/Timestamp/Fraction.antt =====
-- crates/core/src/time.rs: the fraction that `Display` writes is read back, whatever follows it.
use sisa_messaging_rs.Prelude.{
  ℕ, zero, suc, ◌+◌, ◌-◌, ◌*◌, ◌/◌, ◌%◌, ◌^◌, ◌≤◌, ◌<◌, ◌≡◌, ◌≢◌, refl, ap, sym, ◌∙◌, true, [], ◌∷◌,
  ◌++◌, some, arith, ◌==◌, Bool-cases, inl, inr, append_assoc, append-nil,
}
use sisa_messaging_rs.Prelude.Lists.{length, all_of}
use sisa_messaging_rs.Prelude.Text.{Text, is_digit}
use sisa_messaging_rs.Core.Time.Digits.Fixed.{fixed, padded-fixed, fixed-digits, length-fixed}
use sisa_messaging_rs.Core.Time.Timestamp.{
  before_rest, trim_zeros, fraction_text, take_digits, fraction_nanos, nanos_of, parse_fraction,
}
use native.Mathlib.Nat.{pow-suc, mul_assoc}

-- Places past the digits count as zeros, so trailing zeros may be left off.
fraction_nanos-nil : (k t : ℕ) → fraction_nanos k t [] ≡ t * 10 ^ k
unfolding fraction_nanos
fraction_nanos-nil zero t = omega arith
fraction_nanos-nil (suc k) t = omega (
  arith,
  fraction_nanos-nil k (t * 10),
  ap (λ (x : ℕ). t * x) (pow-suc 10 k),
  mul_assoc t 10 (10 ^ k),
  mul_assoc t (10 ^ k) 10,
)

fraction_nanos-zero : (k t : ℕ) → fraction_nanos (suc k) t (b'0' ∷ []) ≡ fraction_nanos (suc k) t []
unfolding fraction_nanos
fraction_nanos-zero k t = let e : t * 10 + (b'0' - b'0') ≡ t * 10 = omega arith in rw e refl

fraction_nanos-before_rest :
    (c : ℕ) (r : Text) (k t : ℕ)
    → fraction_nanos (suc k) t (before_rest c r) ≡ fraction_nanos k (t * 10 + (c - b'0')) r
unfolding fraction_nanos
fraction_nanos-before_rest c (d ∷ r) k t = refl
fraction_nanos-before_rest c [] k t = elim (Bool-cases (c == b'0')) [
  | inl e ↦ let same : t * 10 + (c - b'0') ≡ t * 10 = ground arith in rw (e, same) refl
  | inr e ↦ rw e refl
]

fraction_nanos-trim :
    (s : Text) (k t : ℕ) → length s ≤ k → fraction_nanos k t (trim_zeros s) ≡ fraction_nanos k t s
unfolding trim_zeros fraction_nanos
fraction_nanos-trim [] k t h = refl
fraction_nanos-trim (c ∷ s) zero t h = absurd (omega arith)
fraction_nanos-trim (c ∷ s) (suc k) t h =
    fraction_nanos-before_rest c (trim_zeros s) k t
    ∙ fraction_nanos-trim s k (t * 10 + (c - b'0')) (omega arith)

-- The digits in front of a number's last ones count as its tens.
fraction_nanos-fixed :
    (k m n t : ℕ) (rest : Text)
    → n < 10 ^ k
    → fraction_nanos (m + k) t (fixed k n ++ rest) ≡ fraction_nanos m (t * 10 ^ k + n) rest
unfolding fraction_nanos fixed
fraction_nanos-fixed zero m n t rest b =
    let e : t * 1 + n ≡ t = omega arith in let e' : m + 0 ≡ m = omega arith in rw (e, e') refl
fraction_nanos-fixed (suc k) m n t rest b =
    let q = n / 10 in
    let d = n % 10 in
    let e : (t * 10 ^ k + q) * 10 + (b'0' + d - b'0') ≡ t * 10 ^ suc k + n =
      omega (arith, pow-suc 10 k, ap (λ (x : ℕ). t * x) (pow-suc 10 k), mul_assoc t (10 ^ k) 10) in
    let places : m + suc k ≡ suc m + k = omega arith in
    rw
      (
        places,
        append_assoc (fixed k q) ((b'0' + d) ∷ []) rest,
        fraction_nanos-fixed k (suc m) q t ((b'0' + d) ∷ rest) (omega (arith, pow-suc 10 k)),
        e,
      )
      refl

-- Digits stay digits when zeros are dropped, and something is left of a number that is not 0.
before_rest-digits :
    (c : ℕ) (r : Text)
    → is_digit c ≡ true
    → all_of is_digit r ≡ true
    → all_of is_digit (before_rest c r) ≡ true
before_rest-digits c [] h k = ground arith
before_rest-digits c (d ∷ r) h k = rw (h, k) refl

pub trim_zeros-digits :
    (s : Text) → all_of is_digit s ≡ true → all_of is_digit (trim_zeros s) ≡ true
unfolding trim_zeros
trim_zeros-digits [] h = refl
trim_zeros-digits (c ∷ s) h =
    before_rest-digits c (trim_zeros s) (ground arith) (trim_zeros-digits s (ground arith))

take_digits-append :
    (s : Text) (rest : Text)
    → all_of is_digit s ≡ true
    → take_digits (s ++ (b'Z' ∷ rest)) ≡ (s, b'Z' ∷ rest)
unfolding take_digits
take_digits-append [] rest h = refl
take_digits-append (c ∷ s) rest h =
    let first : is_digit c ≡ true = ground arith in
    rw (first, take_digits-append s rest (ground arith)) refl

-- The nanoseconds that the digits of a fraction stand for.
read_digits : (n : ℕ) → n < 10 ^ 9 → fraction_nanos 9 0 (trim_zeros (fixed 9 n)) ≡ n
read_digits n h =
    let e : 0 * 10 ^ 9 + n ≡ n = omega arith in
    fraction_nanos-trim (fixed 9 n) 9 0 (omega (arith, length-fixed 9 n))
    ∙ ap (fraction_nanos 9 0) (sym (append-nil (fixed 9 n)))
    ∙ fraction_nanos-fixed 9 0 n 0 [] h
    ∙ fraction_nanos-nil 0 (0 * 10 ^ 9 + n)
    ∙ (omega arith)

nanos_of-read :
    (r rest : Text) (n : ℕ) → fraction_nanos 9 0 r ≡ n → n ≢ 0 → nanos_of (r, rest) ≡ some (n, rest)
nanos_of-read [] rest n e h = absurd (h (sym e ∙ fraction_nanos-nil 9 0))
nanos_of-read (c ∷ r) rest n e h = rw e refl

pub parse_fraction-fraction_text :
    (n : ℕ) → n < 10 ^ 9 → parse_fraction (fraction_text n ++ (b'Z' ∷ [])) ≡ some (n, b'Z' ∷ [])
unfolding parse_fraction fraction_text
parse_fraction-fraction_text n h = elim (Bool-cases (n == 0)) [
  | inl e ↦ let zero_nanos : n ≡ 0 = ground arith in rw (e, zero_nanos) refl
  | inr e ↦
      let digits = trim_zeros-digits (fixed 9 n) (fixed-digits 9 n) in
      rw (e, padded-fixed 8 n h, take_digits-append (trim_zeros (fixed 9 n)) [] digits)
        (nanos_of-read (trim_zeros (fixed 9 n)) (b'Z' ∷ []) n (read_digits n h) (λ z. ground arith))
]
