-- ===== src/Runtime/StartError.antt =====
-- crates/runtime/src/bus.rs: why a bus could not start.
use sisa_messaging_rs.Prelude.{String}
use sisa_messaging_rs.Prelude.Text.{Text}
use sisa_messaging_rs.Core.Error.{EnvelopeError}
use sisa_messaging_rs.Core.Transport.{TransportError}

pub data StartError : Type 0 where
  envelope : EnvelopeError → StartError
  duplicate_endpoint : Text → StartError
  duplicate_handler : Text → Text → StartError  -- the endpoint and the message type
  inbox_before_outbox : Text → StartError
  dispatch_settings : String → StartError
  subscribe : Text → TransportError → StartError
