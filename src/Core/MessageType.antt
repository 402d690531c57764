-- ===== src/Core/MessageType.antt =====
-- crates/core/src/message.rs: the checked message type.
pub mod Grammar
use sisa_messaging_rs.Prelude.{
  ℕ, Bool, true, false, not, ◌&&◌, ◌||◌, List, [], ◌∷◌, Option, none, some, String, Result, ok, err,
  ltb, ◌==◌, if◌then◌else◌,
}
use sisa_messaging_rs.Prelude.Lists.{length, all_of, any_of, last_of}
use sisa_messaging_rs.Prelude.Text.{Text, bytes, is_digit, is_lowercase}
use sisa_messaging_rs.Core.Error.{EnvelopeError, invalid_message_type}

abbrev pub max_message_type_length : ℕ
max_message_type_length = 249

-- `str::split` at a character: one part more than there are separators.
unfoldable pub split_level : ℕ → List Text → List Text
split_level c [] = (c ∷ []) ∷ []
split_level c (level ∷ levels) = (c ∷ level) ∷ levels

unfoldable pub split : ℕ → Text → List Text
unfolding split_level
split sep [] = [] ∷ []
split sep (c ∷ s) = let rest = split sep s in if c == sep then [] ∷ rest else split_level c rest

abbrev pub is_empty : Text → Bool
is_empty [] = true
is_empty (c ∷ s) = false

-- `str::strip_prefix` by a character.
abbrev pub strip_char : ℕ → Text → Option Text
strip_char p [] = none
strip_char p (c ∷ s) = if c == p then some s else none

abbrev pub is_allowed : ℕ → Bool
is_allowed b = is_lowercase b || (is_digit b || (b == b'_'))

-- The last test of `check_message_type`, on what follows the `v` of the last level.
abbrev pub is_version : Option Text → Bool
is_version none = false
is_version (some digits) = not (is_empty digits) && all_of is_digit (bytes digits)

abbrev pub version_of : Option Text → Option Text
version_of none = none
version_of (some level) = strip_char b'v' level

unfoldable pub check_message_type : Text → Result String (Unit {0})
check_message_type value =
    let levels = split b'.' value in
    if ltb max_message_type_length (length (bytes value))
    then err "longer than 249 characters"
    else if ltb (length levels) 2
    then err "needs at least two levels, such as `order_placed.v1`"
    else if any_of is_empty levels
    then err "has an empty level"
    else if not (all_of (λ b. is_allowed b || (b == b'.')) (bytes value))
    then err "may hold only lowercase letters, digits and `_`, in levels joined by `.`"
    else if not (is_version (version_of (last_of levels)))
    then err "must end with its version, such as `.v1`"
    else ok tt

pub record MessageType : Type 0 where
  pub value : Text

unfoldable pub new : Text → Result EnvelopeError MessageType
new value = elim (check_message_type value) [
  | ok _ ↦ ok (record { value = value })
  | err reason ↦ err (invalid_message_type value reason)
]

-- `as_str`, and `Display`, which writes the same text.
abbrev pub as_str : MessageType → Text
as_str m = m.value
