-- ===== src/Core/Envelope/Source.antt =====
-- crates/core/src/envelope.rs: the publishing service, the CloudEvents `source`.
use sisa_messaging_rs.Prelude.{Bool, ◌||◌, Result, ok, err, if◌then◌else◌}
use sisa_messaging_rs.Prelude.Lists.{any_of}
use sisa_messaging_rs.Prelude.Text.{Text, codes, is_control, is_whitespace}
use sisa_messaging_rs.Core.Error.{EnvelopeError, invalid}
use sisa_messaging_rs.Core.MessageType.{is_empty}

abbrev pub has_control_or_space : Text → Bool
has_control_or_space = any_of (λ c. is_control c || is_whitespace c)

pub record Source : Type 0 where
  pub value : Text

unfoldable pub new : Text → Result EnvelopeError Source
new value =
    if is_empty value || has_control_or_space value
    then err (invalid (codes "source") "not a URI reference")
    else ok (record { value = value })
