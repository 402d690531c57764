-- ===== src/Core/Time/Digits/Fields.antt =====
-- crates/core/src/time.rs: `number` finds a field written with leading zeros, wherever it stands.
use sisa_messaging_rs.Prelude.{
  ℕ, ◌+◌, ◌-◌, ◌*◌, ◌^◌, ◌<◌, ◌≡◌, refl, ap, sym, ◌∙◌, subst, true, List, [], ◌∷◌, ◌++◌, some,
  arith, leb, ltb, append-nil,
}
use sisa_messaging_rs.Prelude.Lists.{length, take, drop, all_of, length-append}
use sisa_messaging_rs.Prelude.Text.{Text, bytes}
use sisa_messaging_rs.Core.Time.Digits.{fold_digits, number}
use sisa_messaging_rs.Core.Time.Digits.Fixed.{fixed, length-fixed, fold_digits-fixed}

drop-append : (pre s : List ℕ) → drop (length pre) (pre ++ s) ≡ s
drop-append [] s = refl
drop-append (x ∷ pre) s = drop-append pre s

take-append : (s rest : List ℕ) → take (length s) (s ++ rest) ≡ s
take-append [] rest = refl
take-append (x ∷ s) rest = ap (λ t. x ∷ t) (take-append s rest)

take-fixed : (k n : ℕ) (rest : Text) → take k (fixed k n ++ rest) ≡ fixed k n
take-fixed k n rest =
    subst (λ w. take w (fixed k n ++ rest) ≡ fixed k n) (length-fixed k n)
      (take-append (fixed k n) rest)

slice_fits :
    (pre rest : Text) (k n : ℕ) → leb (length pre + k) (length (pre ++ (fixed k n ++ rest))) ≡ true
slice_fits pre rest k n =
    ground (
      arith,
      length-append pre (fixed k n ++ rest),
      length-append (fixed k n) rest,
      length-fixed k n,
    )

pub number-fixed :
    (pre rest : Text) (k n : ℕ)
    → n < 10 ^ k
    → number (pre ++ (fixed k n ++ rest)) (length pre) (length pre + k) ≡ some n
unfolding number
number-fixed pre rest k n h =
    let e : length pre + k - length pre ≡ k = omega arith in
    let none_left : fold_digits 0 (fixed k n) ≡ some n =
      ap (fold_digits 0) (sym (append-nil (fixed k n)))
      ∙ fold_digits-fixed k n 0 [] h
      ∙ (let total : 0 * 10 ^ k + n ≡ n = omega arith in ap some total) in
    rw (slice_fits pre rest k n, e, drop-append pre (fixed k n ++ rest), take-fixed k n rest)
      none_left

-- Text of ASCII characters is its own bytes.
pub bytes-ascii : (s : Text) → all_of (λ c. ltb c 0x80) s ≡ true → bytes s ≡ s
unfolding bytes
bytes-ascii [] h = refl
bytes-ascii (c ∷ s) h =
    let first : ltb c 0x80 ≡ true = ground arith in
    rw (first) (ap (λ t. c ∷ t) (bytes-ascii s (ground arith)))
