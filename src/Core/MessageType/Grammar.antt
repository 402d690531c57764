-- ===== src/Core/MessageType/Grammar.antt =====
-- crates/core/src/message.rs: the grammar of the message types that `check_message_type` passes.
pub mod Split
pub mod Accepted
use sisa_messaging_rs.Prelude.{
  ℕ, suc, ◌≤◌, ◌<◌, ◌≡◌, ◌≢◌, refl, sym, subst, ap, ◌↔◌, ◌⊎◌, inl, inr, Bool, true, false, not,
  ◌&&◌, ◌||◌, List, [], ◌∷◌, ◌++◌, some, ok, ltb, ◌==◌, arith, Bool-cases, ==_iff,
}
use sisa_messaging_rs.Prelude.Lists.{length, all_of, any_of, last_of, All}
use sisa_messaging_rs.Prelude.Text.{Text, utf8, bytes, is_digit}
use sisa_messaging_rs.Core.MessageType.{
  check_message_type, split, split_level, is_empty, is_allowed, is_version, version_of,
}

abbrev pub IsDigit : ℕ → Type 0
IsDigit c = (b'0' ≤ c) × (c ≤ b'9')

-- A lowercase letter, a digit or `_`.
abbrev pub IsAllowed : ℕ → Type 0
IsAllowed c = (b'a' ≤ c) × (c ≤ b'z') ⊎ IsDigit c ⊎ (c ≡ b'_')

abbrev pub IsWord : (ℕ → Type 0) → Text → Type 0
IsWord P s = (s ≢ []) × All P s

-- Levels joined by `.`, the last of them a `v` and digits, and at least one before it.
pub data IsLevels : Text → Type 0 where
  version :
      {level digits s : Text}
      → IsWord IsAllowed level
      → IsWord IsDigit digits
      → s ≡ level ++ (b'.' ∷ b'v' ∷ digits)
      → IsLevels s
  level :
      {level rest s : Text}
      → IsWord IsAllowed level
      → IsLevels rest
      → s ≡ level ++ (b'.' ∷ rest)
      → IsLevels s

abbrev pub is_part : ℕ → Bool
is_part b = is_allowed b || (b == b'.')

abbrev pub IsPart : ℕ → Type 0
IsPart c = IsAllowed c ⊎ (c ≡ b'.')
