-- ===== src/Core/Time/Digits/Fixed.antt =====
-- crates/core/src/time.rs: a number written with leading zeros, and read back.
use sisa_messaging_rs.Prelude.{
  ℕ, zero, suc, ◌+◌, ◌-◌, ◌*◌, ◌/◌, ◌%◌, ◌^◌, ◌≤◌, ◌<◌, ◌≡◌, refl, ap, sym, ◌∙◌, true, [], ◌∷◌,
  ◌++◌, arith, ltb, append_assoc, append-nil, Bool-cases, inl, inr, subst,
}
use sisa_messaging_rs.Prelude.Lists.{length, replicate, all_of, length-append}
use sisa_messaging_rs.Prelude.Text.{Text, is_digit}
use sisa_messaging_rs.Core.Time.Digits.{fold_digits, decimal_from, decimal, padded}
use native.Mathlib.Nat.{pow-suc, mul_assoc}

-- The last `width` decimal digits of `n`, leading zeros included.
unfoldable pub fixed : ℕ → ℕ → Text
fixed zero n = []
fixed (suc width) n = fixed width (n / 10) ++ ((b'0' + n % 10) ∷ [])

abbrev pub zeros : ℕ → Text
zeros n = replicate n b'0'

zeros-append : (n : ℕ) (s : Text) → zeros n ++ (b'0' ∷ s) ≡ b'0' ∷ (zeros n ++ s)
zeros-append zero s = refl
zeros-append (suc n) s = ap (λ t. b'0' ∷ t) (zeros-append n s)

fixed_zero : (k : ℕ) → fixed k 0 ≡ zeros k
unfolding fixed
fixed_zero zero = refl
fixed_zero (suc k) =
    rw (fixed_zero k) (zeros-append k [] ∙ ap (λ t. b'0' ∷ t) (append-nil (zeros k)))

pub length-fixed : (k n : ℕ) → length (fixed k n) ≡ k
unfolding fixed
length-fixed zero n = refl
length-fixed (suc k) n =
    omega
      (arith, length-append {0} (fixed k (n / 10)) ((b'0' + n % 10) ∷ []), length-fixed k (n / 10))

length-decimal_from :
    (fuel n : ℕ) (acc : Text) → length acc + 1 ≤ length (decimal_from fuel n acc) + 1
unfolding decimal_from
length-decimal_from zero n acc = omega arith
length-decimal_from (suc fuel) n acc =
    ground (arith, length-decimal_from fuel (n / 10) ((b'0' + n % 10) ∷ acc))

-- What `decimal_from` writes, filled up with zeros.
decimal_from-fixed :
    (fuel k n : ℕ) (acc : Text)
    → n < fuel
    → n < 10 ^ suc k
    → zeros (suc k + length acc - length (decimal_from fuel n acc)) ++ decimal_from fuel n acc
      ≡ fixed (suc k) n ++ acc
unfolding decimal_from fixed
decimal_from-fixed zero k n acc h b = absurd (omega arith)
decimal_from-fixed (suc fuel) zero n acc h b =
    let small : ltb n 10 ≡ true = ground arith in
    let e1 : 1 + length acc - suc (length acc) ≡ 0 = omega arith in
    let e3 : n % 10 ≡ n = omega arith in rw (small, e1, e3) refl
decimal_from-fixed (suc fuel) (suc k) n acc h b = elim (Bool-cases (ltb n 10)) [
  | inl small ↦
      let e1 : suc (suc k) + length acc - suc (length acc) ≡ suc k = omega arith in
      let e2 : n / 10 ≡ 0 = ground arith in
      let e3 : n % 10 ≡ n = ground arith in
      rw (small, e1, e3, e2)
        (let e4 = fixed_zero (suc k) in
          rw (e4, append_assoc (zeros (suc k)) ((b'0' + n) ∷ []) acc) refl)
  | inr large ↦
      let acc' : Text = (b'0' + n % 10) ∷ acc in
      let step =
        decimal_from-fixed fuel k (n / 10) acc' (ground arith)
          (omega (arith, pow-suc 10 (suc k))) in
      let e : suc k + suc (length acc) ≡ suc (suc k) + length acc = omega arith in
      rw large (
        subst
          (λ w.
            zeros (w - length (decimal_from fuel (n / 10) acc')) ++ decimal_from fuel (n / 10) acc'
            ≡ fixed (suc k) (n / 10) ++ acc')
          e step
        ∙ sym (append_assoc (fixed (suc k) (n / 10)) ((b'0' + n % 10) ∷ []) acc))
]

pub padded-fixed : (k n : ℕ) → n < 10 ^ suc k → padded (suc k) n ≡ fixed (suc k) n
unfolding padded decimal
padded-fixed k n b =
    let e : suc k + 0 ≡ suc k = omega arith in
    subst
      (λ w.
        zeros (w - length (decimal_from (suc n) n [])) ++ decimal_from (suc n) n []
        ≡ fixed (suc k) n)
      e (decimal_from-fixed (suc n) k n [] (omega arith) b ∙ append-nil (fixed (suc k) n))

pub fold_digits-fixed :
    (k n total : ℕ) (rest : Text)
    → n < 10 ^ k
    → fold_digits total (fixed k n ++ rest) ≡ fold_digits (total * 10 ^ k + n) rest
unfolding fold_digits fixed
fold_digits-fixed zero n total rest b = let e : total * 1 + n ≡ total = omega arith in rw e refl
fold_digits-fixed (suc k) n total rest b =
    let m = n / 10 in
    let d = n % 10 in
    let digit : is_digit (b'0' + d) ≡ true = ground arith in
    let e : (total * 10 ^ k + m) * 10 + (b'0' + d - b'0') ≡ total * 10 ^ suc k + n = omega (
      arith,
      pow-suc 10 k,
      ap (λ (t : ℕ). total * t) (pow-suc 10 k),
      mul_assoc total (10 ^ k) 10,
    ) in
    rw
      (
        append_assoc (fixed k m) ((b'0' + d) ∷ []) rest,
        fold_digits-fixed k m total ((b'0' + d) ∷ rest) (omega (arith, pow-suc 10 k)),
        digit,
        e,
      )
      refl

all_of-snoc :
    (s : Text) (b : ℕ)
    → all_of is_digit s ≡ true
    → is_digit b ≡ true
    → all_of is_digit (s ++ (b ∷ [])) ≡ true
all_of-snoc [] b h k = rw k refl
all_of-snoc (c ∷ s) b h k = ground (arith, all_of-snoc s b)

pub fixed-digits : (k n : ℕ) → all_of is_digit (fixed k n) ≡ true
unfolding fixed
fixed-digits zero n = refl
fixed-digits (suc k) n =
    all_of-snoc (fixed k (n / 10)) (b'0' + n % 10) (fixed-digits k (n / 10)) (ground arith)
