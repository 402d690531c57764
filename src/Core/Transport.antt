-- ===== src/Core/Transport.antt =====
-- crates/core/src/transport.rs: what a transport implements.
use sisa_messaging_rs.Prelude.{ℕ, List, Result, String}
use sisa_messaging_rs.Prelude.Acts.{Act}
use sisa_messaging_rs.Prelude.Text.{Text}
use sisa_messaging_rs.Core.MessageType.{MessageType}
use sisa_messaging_rs.Core.Envelope.Defs.{Envelope}
use sisa_messaging_rs.Core.Store.{Duration}

pub data TransportError : Type 0 where
  closed : TransportError
  broker : String → Text → TransportError

pub record EndpointSpec : Type 0 where
  pub name : Text
  pub message_types : List MessageType

abbrev pub Sent : Type 0
Sent = Result TransportError (Unit {0})

pub record TransportPublisher (W : Type 0) : Type 0 where
  pub publish : Envelope → Act W Sent

-- The error destination of the receiving half.
pub record ErrorPublisher (W : Type 0) : Type 0 where
  pub publish_error : Text → Envelope → Act W Sent

-- One received message, and the three ways to settle it.
pub record Delivery (W : Type 0) : Type 0 where
  pub envelope : Envelope
  pub attempt : ℕ
  pub ack : Act W Sent
  pub retry : Duration → Act W Sent
  pub reject : Act W Sent
