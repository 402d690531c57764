-- ===== src/Runtime/Retry/Delay.antt =====
-- What `RetryPolicy::delay` promises: the doubling of `first_delay`, up to `max_delay`.
use sisa_messaging_rs.Prelude.{
  ℕ, zero, suc, ◌-◌, ◌*◌, ◌^◌, ◌≤◌, ◌≡◌, ◌∙◌, min, arith, leb, ◌==◌, ◌||◌, Bool-cases, inl, inr,
}
use sisa_messaging_rs.Runtime.Retry.{RetryPolicy, max_duration, saturating_mul, delay_loop, delay}
use native.Mathlib.Nat.{pow-suc}

abbrev pow2 : ℕ → ℕ
pow2 n = 2 ^ n

pow2_pos : (n : ℕ) → 1 ≤ 2 ^ n
pow2_pos zero = omega arith
pow2_pos (suc n) = omega (arith, pow-suc 2 n, pow2_pos n)

le-mul-pow : (a n : ℕ) → a ≤ a * 2 ^ n
le-mul-pow a n = grind (arith, pow2_pos n)

double_pow : (d n : ℕ) → d * 2 ^ suc n ≡ (d * 2) * 2 ^ n
double_pow d n = grind (arith, pow-suc 2 n)

-- One more round doubles, unless the limit was reached before.
double_step :
    (limit d n : ℕ)
    → limit ≤ max_duration
    → min (saturating_mul d 2 * 2 ^ n) limit ≡ min (d * 2 ^ suc n) limit
double_step limit d n h =
    rw (double_pow d n) (grind (arith, le-mul-pow (d * 2) n, le-mul-pow max_duration n))

delay_loop-eq :
    (limit rounds d : ℕ)
    → limit ≤ max_duration
    → min (delay_loop limit rounds d) limit ≡ min (d * 2 ^ rounds) limit
unfolding delay_loop
delay_loop-eq limit zero d h = omega arith
delay_loop-eq limit (suc rounds) d h = elim (Bool-cases ((d == 0) || leb limit d)) [
  | inl stop ↦ rw stop (ground (arith, le-mul-pow d (suc rounds)))
  | inr go ↦
      rw go (delay_loop-eq limit rounds (saturating_mul d 2) h ∙ double_step limit d rounds h)
]

-- The wait after attempt `n + 1` is `first_delay` doubled `n` times, or `max_delay` if that is
-- shorter, for a `max_delay` that is a `Duration`.
pub delay_closed :
    (p : RetryPolicy) (n : ℕ)
    → p.max_delay ≤ max_duration
    → delay p (suc n) ≡ min (p.first_delay * 2 ^ n) p.max_delay
unfolding delay
delay_closed p n h =
    let e : suc n - 1 ≡ n = omega arith in rw e (delay_loop-eq p.max_delay n p.first_delay h)
