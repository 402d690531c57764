-- ===== src/Runtime/Retry.antt =====
-- crates/runtime/src/retry.rs. A `Duration` is a number of nanoseconds, at most `max_duration`.
pub mod Delay
use sisa_messaging_rs.Prelude.{
  ℕ, zero, suc, ◌+◌, ◌-◌, ◌*◌, ◌^◌, Bool, ◌||◌, min, leb, ◌==◌, if◌then◌else◌,
}
use sisa_messaging_rs.Core.Store.{Duration}

pub record RetryPolicy : Type 0 where
  pub attempts : ℕ
  pub first_delay : Duration
  pub max_delay : Duration

-- `Duration::MAX`: 2 ^ 64 - 1 seconds and 999_999_999 nanoseconds.
abbrev pub max_duration : Duration
max_duration = (2 ^ 64 - 1) * 1_000_000_000 + 999_999_999

abbrev pub saturating_mul : Duration → ℕ → Duration
saturating_mul d n = min (d * n) max_duration

-- The rounds left of the loop.
unfoldable pub delay_loop : Duration → ℕ → Duration → Duration
delay_loop max_delay zero d = d
delay_loop max_delay (suc rounds) d =
    let rest = delay_loop max_delay rounds (saturating_mul d 2) in
    if (d == 0) || leb max_delay d then d else rest

unfoldable pub delay : RetryPolicy → ℕ → Duration
unfolding delay_loop
delay p attempt = min (delay_loop p.max_delay (attempt - 1) p.first_delay) p.max_delay

unfoldable pub is_last : RetryPolicy → ℕ → Bool
is_last p attempt = leb p.attempts attempt

abbrev pub seconds : ℕ → Duration
seconds n = n * 1_000_000_000

abbrev pub default : RetryPolicy
default = record { attempts = 5; first_delay = seconds 1; max_delay = seconds 60 }
