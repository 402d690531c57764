-- ===== src/Core/Envelope/ContentType.antt =====
-- crates/core/src/envelope.rs: the media type of the data, the CloudEvents `datacontenttype`.
use sisa_messaging_rs.Prelude.{◌||◌, Result, ok, err, if◌then◌else◌}
use sisa_messaging_rs.Prelude.Lists.{any_of}
use sisa_messaging_rs.Prelude.Text.{Text, codes, is_control}
use sisa_messaging_rs.Core.Error.{EnvelopeError, invalid}
use sisa_messaging_rs.Core.MessageType.{is_empty}

pub record ContentType : Type 0 where
  pub value : Text

unfoldable pub new : Text → Result EnvelopeError ContentType
new value =
    if is_empty value || any_of is_control value
    then err (invalid (codes "datacontenttype") "not a media type")
    else ok (record { value = value })
