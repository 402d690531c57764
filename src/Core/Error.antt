-- ===== src/Core/Error.antt =====
-- crates/core/src/error.rs. A reason is a literal of the code, so it stays a native string.
use sisa_messaging_rs.Prelude.{String}
use sisa_messaging_rs.Prelude.Text.{Text}

pub data EnvelopeError : Type 0 where
  invalid_message_type : Text → String → EnvelopeError
  invalid_attribute : Text → String → EnvelopeError
  missing_attribute : Text → EnvelopeError

-- `EnvelopeError::invalid`.
abbrev pub invalid : Text → String → EnvelopeError
invalid name reason = invalid_attribute name reason
