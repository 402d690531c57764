-- ===== src/Runtime/Inbox.antt =====
-- crates/runtime/src/inbox.rs: a transaction for each delivery, with a receipt that makes a
-- redelivery a no-op. A transaction is a value that only `commit` gives to the store, so one that a
-- failure leaves behind is rolled back, as dropping it does.
use sisa_messaging_rs.Prelude.{Bool, not, List, [], ◌∷◌, Result, ok, err, map_err, if◌then◌else◌}
use sisa_messaging_rs.Prelude.Acts.{Act, pure, ◌>>=◌, ◌>>?◌}
use sisa_messaging_rs.Prelude.Text.{Text}
use sisa_messaging_rs.Core.Envelope.Defs.{Envelope}
use sisa_messaging_rs.Core.Store.{StoreError, OutboxWriter, InboxStore}
use sisa_messaging_rs.Runtime.Handler
use sisa_messaging_rs.Runtime.Handler.{HandlerContext}
use sisa_messaging_rs.Runtime.Endpoint.{
  Failure, failed_handler, Conversions, Handlers, ErasedHandler, Pipeline, find, call,
}

-- What the bus's outbox does with a handler's publishes: the publishes still held, and the
-- transaction afterwards.
pub record HandlerOutbox (W Transaction : Type 0) : Type 0 where
  pub write : Transaction → List Envelope → Act W (Result StoreError (Transaction × List Envelope))

module _ {W Transaction : Type 0} where
  -- `NoOutbox` leaves them held.
  abbrev pub no_outbox : HandlerOutbox W Transaction
  no_outbox = record { write = λ t held. pure (ok (t, held)) }

  -- An `OutboxStore` writes them in the transaction.
  unfoldable pub write_held :
      OutboxWriter W Transaction
      → Transaction
      → List Envelope
      → Act W (Result StoreError (Transaction × List Envelope))
  write_held outbox t [] = pure (ok (t, []))
  write_held outbox t (e ∷ es) = do
    (inserted, t') ← outbox.insert t (e ∷ es)
    elim inserted [ ok _ ↦ pure (ok (t', [])) | err error ↦ pure (err error) ]

module _ {W Transaction : Type 0} (conversions : Conversions) (inbox : InboxStore W Transaction)
    (outbox : HandlerOutbox W Transaction) where
  -- `?` on a store's answer.
  abbrev pub stored : {A : Type 0} → Act W (Result StoreError A) → Act W (Result Failure A)
  stored m = do r ← m; pure (map_err (λ e. failed_handler (conversions.from_store e)) r)

  -- A message recorded before: the transaction is committed, and no handler runs.
  unfoldable pub skip : Transaction → Act W (Result Failure (List Envelope))
  skip t = stored (inbox.commit t) >>? λ _. pure (ok [])

  -- The handler in the transaction of its receipt.
  unfoldable pub handle :
      ErasedHandler W Transaction
      → HandlerContext (Unit {0})
      → Transaction
      → Act W (Result Failure (List Envelope))
  handle handler context t = call handler (Handler.with_transaction context t).0 >>? λ handled.
      stored (outbox.write handled.transaction handled.held) >>? λ (t', held).
      stored (inbox.commit t') >>? λ _. pure (ok held)

  -- By what `record_receipt` answers.
  unfoldable pub proceed :
      ErasedHandler W Transaction
      → HandlerContext (Unit {0})
      → Result StoreError Bool × Transaction
      → Act W (Result Failure (List Envelope))
  unfolding skip handle
  proceed handler context (err e, t) = pure (err (failed_handler (conversions.from_store e)))
  proceed handler context (ok new, t) = if not new then skip t else handle handler context t

  unfoldable pub in_transaction :
      Text
      → ErasedHandler W Transaction
      → HandlerContext (Unit {0})
      → Transaction
      → Act W (Result Failure (List Envelope))
  unfolding proceed
  in_transaction endpoint handler context t =
      inbox.record_receipt t endpoint context.envelope >>= proceed handler context

  -- `Transactional`.
  unfoldable pub transactional : Text → Handlers W Transaction → Pipeline W
  unfolding in_transaction
  transactional endpoint handlers context = elim (find handlers endpoint context.envelope) [
    | err e ↦ pure (err e)
    | ok handler ↦ (stored inbox.begin >>? in_transaction endpoint handler context)
  ]
