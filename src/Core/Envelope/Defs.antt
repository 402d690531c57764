-- ===== src/Core/Envelope/Defs.antt =====
-- crates/core/src/envelope.rs: the envelope's fields, and `Envelope::new`.
use sisa_messaging_rs.Prelude.{ℕ, List, Option, none}
use sisa_messaging_rs.Prelude.Text.{Text}
use sisa_messaging_rs.Core.MessageType.{MessageType}
use sisa_messaging_rs.Core.MessageId.{MessageId}
use sisa_messaging_rs.Core.Time.Timestamp.{Timestamp}
use sisa_messaging_rs.Core.Envelope.Source.{Source}
use sisa_messaging_rs.Core.Envelope.ContentType.{ContentType}
use sisa_messaging_rs.Core.Envelope.Extensions
use sisa_messaging_rs.Core.Envelope.Extensions.{Extensions}

pub record Correlation : Type 0 where
  pub correlation_id : Option MessageId
  pub causation_id : Option MessageId

pub record TraceContext : Type 0 where
  pub traceparent : Text
  pub tracestate : Option Text

pub record Envelope : Type 0 where
  pub id : MessageId
  pub message_type : MessageType
  pub source : Source
  pub time : Timestamp
  pub subject : Option Text
  pub content_type : ContentType
  pub data_schema : Option Text
  pub partition_key : Option Text
  pub correlation : Correlation
  pub trace : Option TraceContext
  pub extensions : Extensions
  pub body : List ℕ  -- `data`, the encoded message

-- The new id and the current time are the first two arguments.
unfoldable pub new : MessageId → Timestamp → MessageType → Source → ContentType → List ℕ → Envelope
new id now message_type source content_type body = record {
  id = id;
  message_type = message_type;
  source = source;
  time = now;
  subject = none;
  content_type = content_type;
  data_schema = none;
  partition_key = none;
  correlation = record { correlation_id = none; causation_id = none };
  trace = none;
  extensions = Extensions.new;
  body = body;
}
