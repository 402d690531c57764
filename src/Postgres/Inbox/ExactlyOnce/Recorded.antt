-- ===== src/Postgres/Inbox/ExactlyOnce/Recorded.antt =====
-- crates/runtime/src/inbox.rs over crates/postgres/src/inbox.rs: what is committed by a delivery
-- that succeeds, and by one whose message was recorded before.
use sisa_messaging_rs.Prelude.{
  ◌≡◌, refl, true, false, List, [], ◌∷◌, ok, arith, Option-cases, Bool-cases, inl, inr,
  Result-cases,
}
use sisa_messaging_rs.Prelude.Lists.{any_of}
use sisa_messaging_rs.Prelude.Acts.{pure, ◌>>=◌, ◌>>?◌, >>?-cases}
use sisa_messaging_rs.Core.MessageId.{UuidText}
use sisa_messaging_rs.Core.Store.{InboxStore}
use sisa_messaging_rs.Runtime.Handler
use sisa_messaging_rs.Runtime.Handler.{HandlerContext}
use sisa_messaging_rs.Runtime.Endpoint.{Conversions, ErasedHandler, find}
use sisa_messaging_rs.Runtime.Inbox.{
  HandlerOutbox, skip, proceed, in_transaction, transactional, stored,
}
use sisa_messaging_rs.Postgres.Inbox.{
  PostgresInbox, Receipt, same_message, conflicts, Database, Transaction, World, CommitOutcome,
  committed, committed_unseen, not_committed, ended, next, Answers, begin, receipt, commit,
  postgres_inbox,
}
use sisa_messaging_rs.Postgres.Inbox.ExactlyOnce.{Work}
use sisa_messaging_rs.Postgres.Inbox.ExactlyOnce.Deliveries.{Received, deliver}
use sisa_messaging_rs.Postgres.Inbox.ExactlyOnce.Pipeline.{start_receipt, record_receipt-cases}

-- A receipt of the message on the endpoint is committed.
module _ (answers : Answers Work) (uuid : UuidText) (settings : PostgresInbox) where
  abbrev pub IsRecorded : Received → Database Work → Type 0
  IsRecorded d db =
      any_of (same_message (receipt answers uuid settings 0 d.endpoint d.envelope)) db.receipts
      ≡ true

same-conflicts :
    (r r' : Receipt) (rs : List Receipt)
    → ((x : Receipt) → same_message r x ≡ same_message r' x)
    → any_of (same_message r) rs ≡ true
    → any_of (conflicts r') rs ≡ true
same-conflicts r r' [] same h = h
same-conflicts r r' (x ∷ rs) same h = ground (arith, same x, same-conflicts r r' rs same)

module _ (answers : Answers Work) (uuid : UuidText) (settings : PostgresInbox)
    (conversions : Conversions) (outbox : HandlerOutbox (World Work) (Transaction Work)) where
  commit-empty :
      (t : Transaction Work) (w : World Work)
      → t.new_receipts ≡ []
      → t.new_rows ≡ []
      → (commit answers uuid settings t w).1.db ≡ w.db
  unfolding commit
  commit-empty t w no_receipts no_rows = elim (Bool-cases t.aborted) [
    | inl e ↦ rw e refl
    | inr e ↦ rw e (go (answers.commits w))
  ]
    where
      go : (c : CommitOutcome) → (ended t w c).1.db ≡ w.db
      go committed = rw (no_receipts, no_rows) refl
      go (committed_unseen e) = rw (no_receipts, no_rows) refl
      go (not_committed e) = refl

  abbrev inbox : InboxStore (World Work) (Transaction Work)
  inbox = postgres_inbox answers uuid settings

  skip-same :
      (t : Transaction Work) (w : World Work)
      → t.new_receipts ≡ []
      → t.new_rows ≡ []
      → (skip conversions inbox outbox t w).1.db ≡ w.db
  unfolding skip
  skip-same t w no_receipts no_rows =
      >>?-cases (λ r. r.1.db ≡ w.db)
        (stored conversions inbox outbox (commit answers uuid settings t)) (λ _. pure (ok [])) w
        (λ _ _. commit-empty t w no_receipts no_rows) (λ _ _. commit-empty t w no_receipts no_rows)

  in_transaction-same :
      (handler : ErasedHandler (World Work) (Transaction Work))
      (context : HandlerContext (Unit {0})) (w : World Work)
      → any_of (conflicts (start_receipt answers uuid settings context w)) w.db.receipts ≡ true
      → (in_transaction conversions inbox outbox context.endpoint handler context
          (record { new_receipts = []; new_rows = []; aborted = false })
          w).1.db
        ≡ w.db
  unfolding in_transaction proceed
  in_transaction-same handler context w seen =
      record_receipt-cases answers uuid settings
        (λ (recorded, w').
          (proceed conversions inbox outbox handler context recorded w').1.db ≡ w.db)
        context (record { new_receipts = []; new_rows = []; aborted = false }) w (λ e. refl)
        (λ _.
          skip-same (record { new_receipts = []; new_rows = []; aborted = false }) (next w) refl
            refl)
        (λ unseen. ground arith)

  -- A delivery whose message was recorded before leaves the database as it is, whatever the
  -- handlers and the outbox do.
  pub deliver-same :
      (d : Received) (w : World Work)
      → IsRecorded answers uuid settings d w.db
      → (deliver answers uuid settings conversions outbox d w).1.db ≡ w.db
  unfolding transactional Handler.new begin receipt
  deliver-same d w recorded = elim (Result-cases (find d.handlers d.endpoint d.envelope)) [
    | inr (failure, missing) ↦ rw (deliver, transactional, missing) refl
    | inl (handler, found) ↦ elim (Option-cases (answers.begins w)) [
      | inr (error, e) ↦ rw (deliver, transactional, found, ◌>>?◌, ◌>>=◌, begin, e) refl
      | inl e ↦
          rw (deliver, transactional, found, ◌>>?◌, ◌>>=◌, begin, e)
            (in_transaction-same handler (Handler.new d.source d.endpoint d.envelope d.attempt)
              (next w)
              (same-conflicts (receipt answers uuid settings 0 d.endpoint d.envelope)
                (start_receipt answers uuid settings
                  (Handler.new d.source d.endpoint d.envelope d.attempt) (next w))
                w.db.receipts (λ x. refl) recorded))
    ]
  ]
