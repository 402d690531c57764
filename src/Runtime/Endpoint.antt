-- ===== src/Runtime/Endpoint.antt =====
-- crates/runtime/src/endpoint.rs: handlers, the pipeline without an inbox, and the settling of a
-- delivery.
pub mod Settle
pub mod Builder
pub mod Process
pub mod Receive
use sisa_messaging_rs.Prelude.{
  ℕ, Bool, not, List, [], ◌∷◌, ◌++◌, Option, none, some, Result, ok, err, map_err, if◌then◌else◌,
}
use sisa_messaging_rs.Prelude.Acts.{Act, pure, ◌>>=◌, ◌>>?◌}
use sisa_messaging_rs.Prelude.Text.{Text, codes}
use sisa_messaging_rs.Prelude.Maps
use sisa_messaging_rs.Prelude.Maps.{Map}
use sisa_messaging_rs.Core.Error.{EnvelopeError}
use sisa_messaging_rs.Core.Time.Digits.{decimal}
use sisa_messaging_rs.Core.Envelope.Source.{Source}
use sisa_messaging_rs.Core.Envelope.Extensions
use sisa_messaging_rs.Core.Envelope.Extensions.{Extensions}
use sisa_messaging_rs.Core.Envelope.Defs.{Envelope}
use sisa_messaging_rs.Core.Codec
use sisa_messaging_rs.Core.Codec.{CodecError, Message}
use sisa_messaging_rs.Core.Store.{StoreError}
use sisa_messaging_rs.Core.Transport.{
  TransportError, Sent, TransportPublisher, ErrorPublisher, Delivery,
}
use sisa_messaging_rs.Runtime.Retry
use sisa_messaging_rs.Runtime.Retry.{RetryPolicy}
use sisa_messaging_rs.Runtime.Handler
use sisa_messaging_rs.Runtime.Handler.{HandlerError, HandlerContext}

-- A panic that `catch_unwind` or the worker meets, with its payload.
pub data Payload : Type 0 where
  str string : Text → Payload
  other : Payload

pub data Unwind (A : Type 0) : Type 0 where
  returned : A → Unwind A
  panicked : Payload → Unwind A

unfoldable pub panic_message : Payload → Text
panic_message (str s) = s
panic_message (string s) = s
panic_message other = codes "a panic without a message"

pub data Failure : Type 0 where
  undecodable : HandlerError → Failure
  failed_handler : HandlerError → Failure

-- `HandlerError::from` of the errors that the runtime converts: their type's name and their
-- `Display`.
pub record Conversions : Type 0 where
  pub from_store : StoreError → HandlerError
  pub from_transport : TransportError → HandlerError
  pub from_codec : CodecError → HandlerError
  pub codec_error_name : Text

module _ (W Transaction : Type 0) where
  abbrev pub ErasedHandler : Type 0
  ErasedHandler =
      HandlerContext Transaction → Act W (Unwind (Result Failure (HandlerContext Transaction)))

  abbrev pub Handlers : Type 0
  Handlers = Map ErasedHandler

abbrev pub caught : {A : Type 0} → Unwind (Result Failure A) → Result Failure A
caught (returned r) = r
caught (panicked p) =
    err (failed_handler (record { error_type = codes "panic"; message = panic_message p }))

module _ {W Transaction : Type 0} where
  unfoldable pub find :
      Handlers W Transaction → Text → Envelope → Result Failure (ErasedHandler W Transaction)
  find handlers endpoint envelope = elim (Maps.get envelope.message_type.value handlers) [
    | some handler ↦ ok handler
    | none ↦ err (
        undecodable (record {
          error_type = codes "no_handler";
          message =
              codes "endpoint " ++ (endpoint ++ codes " has no handler for this message type");
        }))
  ]

  unfoldable pub call :
      ErasedHandler W Transaction
      → HandlerContext Transaction
      → Act W (Result Failure (HandlerContext Transaction))
  call handler context = do r ← handler context; pure (caught r)

abbrev handled :
    {Transaction : Type 0}
    → Unwind (Result HandlerError (HandlerContext Transaction))
    → Unwind (Result Failure (HandlerContext Transaction))
handled (returned r) = returned (map_err failed_handler r)
handled (panicked p) = panicked p

abbrev pub UserHandler : Type 0 → Type 0 → Type 0 → Type 0
UserHandler W Msg Transaction =
    Msg
    → HandlerContext Transaction
    → Act W (Unwind (Result HandlerError (HandlerContext Transaction)))

-- `Typed`: the data decoded as `Msg`, then the user's handler, which gives the context back as it
-- leaves it when it returns `Ok`.
module _ {W Msg Transaction : Type 0} (conversions : Conversions) (message : Message Msg) where
  unfoldable pub typed : UserHandler W Msg Transaction → ErasedHandler W Transaction
  typed handler context =
      if not (Codec.can_decode context.envelope.content_type)
      then pure (
          returned (
            err (
              undecodable (record {
                error_type = conversions.codec_error_name;
                message = codes "no codec reads " ++ context.envelope.content_type.value;
              }))))
      else elim (Codec.decode message context.envelope.body) [
        | err e ↦ pure (returned (err (undecodable (conversions.from_codec e))))
        | ok m ↦ do r ← handler m context; pure (handled r)
      ]

abbrev restored :
    {Transaction : Type 0}
    → Transaction
    → Unwind (Result Failure (HandlerContext (Unit {0})))
    → Unwind (Result Failure (HandlerContext Transaction))
restored t (returned (ok c)) = returned (ok (Handler.with_transaction c t).0)
restored t (returned (err e)) = returned (err e)
restored t (panicked p) = panicked p

module _ {W Transaction : Type 0} where
  -- `WithoutTransaction`: the transaction is set aside while the handler runs.
  unfoldable pub without_transaction : ErasedHandler W (Unit {0}) → ErasedHandler W Transaction
  without_transaction handler context =
      let (plain, transaction) = Handler.with_transaction context tt in
      do r ← handler plain; pure (restored transaction r)

-- What a delivery's handling answers: the publishes to send before the ack.
abbrev pub Pipeline : Type 0 → Type 0
Pipeline W = HandlerContext (Unit {0}) → Act W (Result Failure (List Envelope))

-- `Plain`: an endpoint without an inbox.
module _ {W : Type 0} where
  unfoldable pub plain : Text → Handlers W (Unit {0}) → Pipeline W
  plain endpoint handlers context = elim (find handlers endpoint context.envelope) [
    | err e ↦ pure (err e)
    | ok handler ↦ (call handler context >>? λ c. pure (ok c.held))
  ]
