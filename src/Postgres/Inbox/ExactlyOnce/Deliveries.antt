-- ===== src/Postgres/Inbox/ExactlyOnce/Deliveries.antt =====
-- crates/runtime/src/inbox.rs over crates/postgres/src/inbox.rs: any deliveries, in any order and
-- any number of times, on any endpoints, with the failures that may happen in each.
use sisa_messaging_rs.Prelude.{
  ℕ, ◌≡◌, refl, false, List, [], ◌∷◌, some, Result, ok, arith, Option-cases, inl, inr, Result-cases,
}
use sisa_messaging_rs.Prelude.Acts.{◌>>=◌, ◌>>?◌}
use sisa_messaging_rs.Prelude.Text.{Text}
use sisa_messaging_rs.Prelude.Maps
use sisa_messaging_rs.Core.MessageId.{UuidText}
use sisa_messaging_rs.Core.Envelope.Source.{Source}
use sisa_messaging_rs.Core.Envelope.Defs.{Envelope}
use sisa_messaging_rs.Runtime.Handler
use sisa_messaging_rs.Runtime.Handler.{HandlerContext}
use sisa_messaging_rs.Runtime.Endpoint.{Failure, Conversions, Handlers, ErasedHandler, find}
use sisa_messaging_rs.Runtime.Inbox.{HandlerOutbox, in_transaction, transactional, stored}
use sisa_messaging_rs.Postgres.Inbox.{
  PostgresInbox, Transaction, World, next, Answers, begin, postgres_inbox,
}
use sisa_messaging_rs.Postgres.Inbox.ExactlyOnce.{Work, IsOnce, WorksOnce, KeepsWork}
use sisa_messaging_rs.Postgres.Inbox.ExactlyOnce.Pipeline.{Once, in_transaction-IsOnce}

-- A delivery as an endpoint's worker gets it: the endpoint's name and handlers, the envelope, the
-- attempt.
pub record Received : Type 0 where
  pub source : Source
  pub endpoint : Text
  pub handlers : Handlers (World Work) (Transaction Work)
  pub envelope : Envelope
  pub attempt : ℕ

module _ (answers : Answers Work) where
  abbrev pub AllWorkOnce : Handlers (World Work) (Transaction Work) → Type 0
  AllWorkOnce handlers =
      (k : Text) (h : ErasedHandler (World Work) (Transaction Work))
      → Maps.get k handlers ≡ some h
      → WorksOnce answers h

  abbrev pub AllReceivedWorkOnce : List Received → Type 0
  AllReceivedWorkOnce [] = Unit
  AllReceivedWorkOnce (d ∷ ds) = AllWorkOnce d.handlers × AllReceivedWorkOnce ds

pub find-get :
    (handlers : Handlers (World Work) (Transaction Work)) (endpoint : Text) (envelope : Envelope)
    (h : ErasedHandler (World Work) (Transaction Work))
    → find handlers endpoint envelope ≡ ok h
    → Maps.get envelope.message_type.value handlers ≡ some h
unfolding find
find-get handlers endpoint envelope h found = ground arith

module _ (answers : Answers Work) (uuid : UuidText) (settings : PostgresInbox)
    (conversions : Conversions) (outbox : HandlerOutbox (World Work) (Transaction Work)) where
  abbrev pub deliver : Received → World Work → Result Failure (List Envelope) × World Work
  deliver d =
      transactional conversions (postgres_inbox answers uuid settings) outbox d.endpoint d.handlers
        (Handler.new d.source d.endpoint d.envelope d.attempt)

  abbrev pub deliver_all : List Received → World Work → World Work
  deliver_all [] w = w
  deliver_all (d ∷ ds) w = deliver_all ds (deliver d w).1

  begun-IsOnce :
      (handler : ErasedHandler (World Work) (Transaction Work))
      (context : HandlerContext (Unit {0})) (w : World Work)
      → KeepsWork outbox
      → WorksOnce answers handler
      → IsOnce w.db
      → Once (
          (stored conversions
                (postgres_inbox answers uuid settings)
                outbox
                (begin answers uuid settings)
              >>? in_transaction conversions
                  (postgres_inbox answers uuid settings)
                  outbox
                  context.endpoint
                  handler
                  context)
            w)
  unfolding begin
  begun-IsOnce handler context w keeps works once = elim (Option-cases (answers.begins w)) [
    | inl e ↦
        rw (◌>>?◌, ◌>>=◌, begin, e)
          (in_transaction-IsOnce answers uuid settings conversions outbox keeps handler context
            (record { new_receipts = []; new_rows = []; aborted = false }) (next w) works
            (refl, refl) once)
    | inr (error, e) ↦ rw (◌>>?◌, ◌>>=◌, begin, e) once
  ]

  deliver-IsOnce :
      (d : Received) (w : World Work)
      → KeepsWork outbox
      → AllWorkOnce answers d.handlers
      → IsOnce w.db
      → IsOnce (deliver d w).1.db
  unfolding Handler.new transactional
  deliver-IsOnce d w keeps works once =
      elim (Result-cases (find d.handlers d.endpoint d.envelope)) [
        | inl (handler, found) ↦
            rw (deliver, transactional, found)
              (begun-IsOnce handler (Handler.new d.source d.endpoint d.envelope d.attempt) w keeps
                (works d.envelope.message_type.value handler
                  (find-get d.handlers d.endpoint d.envelope handler found))
                once)
        | inr (failure, missing) ↦ rw (deliver, transactional, missing) once
      ]

  -- Whatever is delivered and however often, whatever fails, the rows that the handlers have
  -- committed are one for each receipt, and no endpoint has two receipts of one message: if it was so
  -- before, each handler works in its transaction only, adding its one row when it returns `Ok`,
  -- and the outbox writes nothing but its own table.
  pub deliver_all-IsOnce :
      (ds : List Received) (w : World Work)
      → KeepsWork outbox
      → AllReceivedWorkOnce answers ds
      → IsOnce w.db
      → IsOnce (deliver_all ds w).db
  deliver_all-IsOnce [] w keeps works once = once
  deliver_all-IsOnce (d ∷ ds) w keeps (first, rest) once =
      deliver_all-IsOnce ds (deliver d w).1 keeps rest (deliver-IsOnce d w keeps first once)
