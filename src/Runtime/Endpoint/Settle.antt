-- ===== src/Runtime/Endpoint/Settle.antt =====
-- crates/runtime/src/endpoint.rs: one delivery, from its context to its settling.
use sisa_messaging_rs.Prelude.{ℕ, not, List, [], ◌∷◌, Result, ok, err, if◌then◌else◌}
use sisa_messaging_rs.Prelude.Acts.{Act, pure, ◌>>=◌, ◌>>?◌}
use sisa_messaging_rs.Prelude.Text.{Text, codes}
use sisa_messaging_rs.Core.Time.Digits.{decimal}
use sisa_messaging_rs.Core.Envelope.Source.{Source}
use sisa_messaging_rs.Core.Envelope.Extensions
use sisa_messaging_rs.Core.Envelope.Extensions.{Extensions}
use sisa_messaging_rs.Core.Envelope.Defs.{Envelope}
use sisa_messaging_rs.Core.Transport.{Sent, TransportPublisher, ErrorPublisher, Delivery}
use sisa_messaging_rs.Runtime.Retry
use sisa_messaging_rs.Runtime.Retry.{RetryPolicy}
use sisa_messaging_rs.Runtime.Handler
use sisa_messaging_rs.Runtime.Handler.{HandlerError, HandlerContext}
use sisa_messaging_rs.Runtime.Endpoint.{
  string, Unwind, returned, panicked, Failure, undecodable, failed_handler, Conversions, Pipeline,
}

-- `insert(..).expect(..)`: the map afterwards, or the panic.
unfoldable pub insert_expected : Unwind Extensions → Text → Text → Unwind Extensions
insert_expected (panicked p) name value = panicked p
insert_expected (returned e) name value = elim (Extensions.insert e name value) [
  | ok (e', _) ↦ returned e'
  | err _ ↦ panicked (string (codes "the error extension names follow the CloudEvents rules"))
]

abbrev with_extensions : Envelope → Unwind Extensions → Unwind Envelope
with_extensions envelope (panicked p) = panicked p
with_extensions envelope (returned e) = returned (record envelope { extensions = e })

unfoldable pub error_envelope : Envelope → Text → HandlerError → ℕ → Unwind Envelope
unfolding insert_expected
error_envelope envelope endpoint error attempt = with_extensions envelope (
    insert_expected
      (insert_expected
        (insert_expected
          (insert_expected (returned envelope.extensions) (codes "errorendpoint") endpoint)
          (codes "errortype") error.error_type)
        (codes "errormessage") error.message)
      (codes "errorattempts") (decimal attempt))

module _ {W : Type 0} (transport : TransportPublisher W) (conversions : Conversions) where
  -- The loop stops at the first publish that fails.
  unfoldable pub send_held : List Envelope → Act W (Result Failure (Unit {0}))
  send_held [] = pure (ok tt)
  send_held (e ∷ es) =
      let rest = send_held es in
      do
        sent ← transport.publish e
        elim sent [
          | ok _ ↦ rest
          | err error ↦ pure (err (failed_handler (conversions.from_transport error)))
        ]

-- `Endpoint`: `message_types` and `transactional` are read only when the bus is built and started.
pub record Endpoint (W : Type 0) : Type 0 where
  pub name : Text
  pub retry : RetryPolicy
  pub pipeline : Pipeline W

module _ {W : Type 0} (transport : TransportPublisher W) (errors : ErrorPublisher W)
    (conversions : Conversions) where
  unfoldable pub give_up : Endpoint W → Delivery W → Envelope → Act W Sent
  give_up endpoint delivery failed = do
    sent ← errors.publish_error endpoint.name failed
    elim sent [
      | ok _ ↦ delivery.reject
      | err _ ↦ delivery.retry (Retry.delay endpoint.retry delivery.attempt)
    ]

  unfoldable pub report : Endpoint W → Delivery W → HandlerError → Act W (Unwind Sent)
  report endpoint delivery error =
      elim (error_envelope delivery.envelope endpoint.name error delivery.attempt) [
        | panicked p ↦ pure (panicked p)
        | returned failed ↦ do settled ← give_up endpoint delivery failed; pure (returned settled)
      ]

  -- The `match` on the result of the handling.
  unfoldable pub settle : Endpoint W → Delivery W → Result Failure (Unit {0}) → Act W (Unwind Sent)
  settle endpoint delivery (ok _) = do settled ← delivery.ack; pure (returned settled)
  settle endpoint delivery (err (failed_handler error)) =
      if not (Retry.is_last endpoint.retry delivery.attempt)
      then (do
        settled ← delivery.retry (Retry.delay endpoint.retry delivery.attempt)
        pure (returned settled))
      else report endpoint delivery error
  settle endpoint delivery (err (undecodable error)) = report endpoint delivery error

  -- What the settling answers is only logged.
  unfoldable pub process : Endpoint W → Source → Delivery W → Act W (Unwind Sent)
  process endpoint source delivery = do
    let context = Handler.new source endpoint.name delivery.envelope delivery.attempt
    result ← endpoint.pipeline context >>? send_held transport conversions
    settle endpoint delivery result
