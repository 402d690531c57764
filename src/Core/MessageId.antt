-- ===== src/Core/MessageId.antt =====
-- crates/core/src/message.rs: the message id. The `uuid` crate reads and writes its text.
use sisa_messaging_rs.Prelude.{ℕ, ◌≡◌, Option, some, Result, ok, ok_or, ◌>>=◌}
use sisa_messaging_rs.Prelude.Text.{Text, codes}
use sisa_messaging_rs.Core.Error.{EnvelopeError, invalid}

-- A UUID is 128 bits, kept as a number; its order is the order of the bits.
pub record MessageId : Type 0 where
  pub uuid : ℕ

-- What the code uses of the `uuid` crate: `Uuid::parse_str`, and the hyphenated lowercase form that
-- `Display` writes, which `parse_str` reads back.
pub record UuidText : Type 0 where
  pub parse_str : Text → Option ℕ
  pub hyphenated : ℕ → Text
  pub parse_str-hyphenated : (u : ℕ) → parse_str (hyphenated u) ≡ some u

module _ (uuid : UuidText) where
  unfoldable pub to_string : MessageId → Text
  to_string id = uuid.hyphenated id.uuid

  unfoldable pub from_str : Text → Result EnvelopeError MessageId
  from_str s = do
    u ← ok_or (uuid.parse_str s) (invalid (codes "id") "not a UUID")
    ok (record { uuid = u })
