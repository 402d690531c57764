-- ===== src/Postgres/Inbox/ExactlyOnce/Acked.antt =====
-- crates/runtime/src/inbox.rs over crates/postgres/src/inbox.rs: the receipt of a delivery that is
-- handled without an error, so of each that is acked.
use sisa_messaging_rs.Prelude.{
  ◌≡◌, refl, ◌∙◌, true, false, List, [], ◌∷◌, ◌++◌, Result, ok, arith, Option-cases, Bool-cases,
  inl, inr, Result-cases,
}
use sisa_messaging_rs.Prelude.Lists.{any_of}
use sisa_messaging_rs.Prelude.Acts.{pure, ◌>>=◌, ◌>>?◌, >>?-cases}
use sisa_messaging_rs.Prelude.Text.{text_eq_iff}
use sisa_messaging_rs.Core.MessageId.{UuidText}
use sisa_messaging_rs.Core.Envelope.Defs.{Envelope}
use sisa_messaging_rs.Core.Store.{InboxStore}
use sisa_messaging_rs.Runtime.Handler
use sisa_messaging_rs.Runtime.Handler.{HandlerContext}
use sisa_messaging_rs.Runtime.Endpoint.{Failure, Conversions, ErasedHandler, find, call}
use sisa_messaging_rs.Runtime.Inbox.{
  HandlerOutbox, skip, handle, proceed, in_transaction, transactional, stored,
}
use sisa_messaging_rs.Postgres.Inbox.{
  PostgresInbox, Receipt, same_message, same_key, conflicts, Transaction, World, CommitOutcome,
  committed, committed_unseen, not_committed, ended, next, Answers, begin, receipt, apply, commit,
  postgres_inbox,
}
use sisa_messaging_rs.Postgres.Inbox.ExactlyOnce.{Work, WorksOnce, KeepsWork, map_err-ok, caught-ok}
use sisa_messaging_rs.Postgres.Inbox.ExactlyOnce.Deliveries.{
  Received, deliver, AllWorkOnce, find-get,
}
use sisa_messaging_rs.Postgres.Inbox.ExactlyOnce.Pipeline.{start_receipt, record_receipt-cases}
use sisa_messaging_rs.Postgres.Inbox.ExactlyOnce.Recorded.{IsRecorded}

-- Whether a success leaves a receipt of the message of `r`.
abbrev AckedRecorded : Receipt → {A : Type 0} → Result Failure A × World Work → Type 0
AckedRecorded r {A = A} x = (a : A) → x.0 ≡ ok a → any_of (same_message r) x.1.db.receipts ≡ true

same_message_refl :
    (r r' : Receipt) (rs : List Receipt)
    → ((x : Receipt) → same_message r x ≡ same_message r' x)
    → any_of (same_message r) (r' ∷ rs) ≡ true
same_message_refl r r' rs same =
    rw (same r') (ground (arith, (text_eq_iff r'.endpoint r'.endpoint).1 refl))

conflicts-fresh :
    (r r' : Receipt) (rs : List Receipt)
    → ((x : Receipt) → same_message r x ≡ same_message r' x)
    → any_of (same_key r') rs ≡ false
    → any_of (conflicts r') rs ≡ true
    → any_of (same_message r) rs ≡ true
conflicts-fresh r r' [] same fresh h = h
conflicts-fresh r r' (x ∷ rs) same fresh h = ground (arith, same x, conflicts-fresh r r' rs same)

module _ (answers : Answers Work) (uuid : UuidText) (settings : PostgresInbox)
    (conversions : Conversions) (outbox : HandlerOutbox (World Work) (Transaction Work))
    (keeps : KeepsWork outbox) where
  abbrev inbox : InboxStore (World Work) (Transaction Work)
  inbox = postgres_inbox answers uuid settings

  commit-ok :
      (t : Transaction Work) (w : World Work)
      → (commit answers uuid settings t w).0 ≡ ok tt
      → (commit answers uuid settings t w).1.db ≡ apply t w.db
  unfolding commit
  commit-ok t w = elim (Bool-cases t.aborted) [
    | inl e ↦ rw e (λ h. cc)
    | inr e ↦ rw e (go (answers.commits w))
  ]
    where
      go : (c : CommitOutcome) → (ended t w c).0 ≡ ok tt → (ended t w c).1.db ≡ apply t w.db
      go committed h = refl
      go (committed_unseen e) h = refl
      go (not_committed e) h = cc

  -- The end of a delivery, where the transaction or the database has the receipt.
  finish-AckedRecorded :
      (r : Receipt) {A : Type 0} (a : A) (t : Transaction Work) (w : World Work)
      → any_of (same_message r) (t.new_receipts ++ w.db.receipts) ≡ true
      → AckedRecorded r (
          (stored conversions inbox outbox (commit answers uuid settings t) >>? λ _. pure (ok a)) w)
  finish-AckedRecorded r a t w has =
      >>?-cases (AckedRecorded r) (stored conversions inbox outbox (commit answers uuid settings t))
        (λ _. pure (ok a)) w
        (λ u done b h.
          rw (commit-ok t w (map_err-ok _ (commit answers uuid settings t w).0 done)) has)
        (λ e _ b h. cc)

  handle-AckedRecorded :
      (handler : ErasedHandler (World Work) (Transaction Work))
      (context : HandlerContext (Unit {0})) (r r' : Receipt) (t : Transaction Work) (w : World Work)
      → WorksOnce answers handler
      → ((x : Receipt) → same_message r x ≡ same_message r' x)
      → t.new_receipts ≡ r' ∷ []
      → AckedRecorded r (handle conversions inbox outbox handler context t w)
  unfolding handle call Handler.with_transaction
  handle-AckedRecorded handler context r r' t w works same mine =
      >>?-cases (AckedRecorded r) (call handler c) _ w
        (λ c' called.
          let w' = (handler c w).1 in
          let m = stored conversions inbox outbox (outbox.write c'.transaction c'.held) in
          >>?-cases (AckedRecorded r) m _ w'
            (λ (t', held') wrote.
              let w'' = (outbox.write c'.transaction c'.held w').1 in
              let kept =
                keeps.keeps c'.transaction t' c'.held held' w'
                  (map_err-ok _ (outbox.write c'.transaction c'.held w').0 wrote) in
              let added = works.adds c c' w (caught-ok (handler c w).0 called) in
              finish-AckedRecorded r held' t' w''
                (rw (kept.0 ∙ (added.0 ∙ mine)) (same_message_refl r r' w''.db.receipts same)))
            (λ e _ b h. cc))
        (λ e _ b h. cc)
    where
      c : HandlerContext (Transaction Work)
      c = (Handler.with_transaction context t).0

  -- The new receipt's id is not yet in the table with its time.
  abbrev pub IsFresh : HandlerContext (Unit {0}) → World Work → Type 0
  IsFresh context w =
      any_of (same_key (start_receipt answers uuid settings context w)) w.db.receipts ≡ false

  in_transaction-AckedRecorded :
      (handler : ErasedHandler (World Work) (Transaction Work))
      (context : HandlerContext (Unit {0})) (r : Receipt) (w : World Work)
      → WorksOnce answers handler
      → IsFresh context w
      → ((x : Receipt)
          → same_message r x ≡ same_message (start_receipt answers uuid settings context w) x)
      → AckedRecorded r (
          in_transaction conversions inbox outbox context.endpoint handler context
            (record { new_receipts = []; new_rows = []; aborted = false })
            w)
  unfolding in_transaction proceed skip
  in_transaction-AckedRecorded handler context r w works fresh same =
      record_receipt-cases answers uuid settings
        (λ (recorded, w').
          AckedRecorded r (proceed conversions inbox outbox handler context recorded w'))
        context t w (λ e a h. cc)
        (λ seen.
          finish-AckedRecorded r [] t (next w) (conflicts-fresh r r' w.db.receipts same fresh seen))
        (λ _.
          handle-AckedRecorded handler context r r' (record t { new_receipts = r' ∷ [] }) (next w)
            works same refl)
    where
      t : Transaction Work
      t = record { new_receipts = []; new_rows = []; aborted = false }

      r' : Receipt
      r' = start_receipt answers uuid settings context w

  -- When the handling of a delivery answers `Ok`, the database has a receipt of its message on its
  -- endpoint, provided the handlers and the outbox leave the receipt alone and the new receipt's id
  -- is not in use.
  pub deliver-IsRecorded :
      (d : Received) (w : World Work) (sent : List Envelope)
      → AllWorkOnce answers d.handlers
      → IsFresh (Handler.new d.source d.endpoint d.envelope d.attempt) (next w)
      → (deliver answers uuid settings conversions outbox d w).0 ≡ ok sent
      → IsRecorded answers uuid settings d
          (deliver answers uuid settings conversions outbox d w).1.db
  unfolding transactional Handler.new begin receipt
  deliver-IsRecorded d w sent works fresh =
      elim (Result-cases (find d.handlers d.endpoint d.envelope)) [
        | inr (failure, missing) ↦ rw (deliver, transactional, missing) (λ h. cc)
        | inl (handler, found) ↦ elim (Option-cases (answers.begins w)) [
          | inr (error, e) ↦ rw (deliver, transactional, found, ◌>>?◌, ◌>>=◌, begin, e) (λ h. cc)
          | inl e ↦
              rw (deliver, transactional, found, ◌>>?◌, ◌>>=◌, begin, e)
                (in_transaction-AckedRecorded handler
                  (Handler.new d.source d.endpoint d.envelope d.attempt)
                  (receipt answers uuid settings 0 d.endpoint d.envelope) (next w)
                  (works d.envelope.message_type.value handler
                    (find-get d.handlers d.endpoint d.envelope handler found))
                  fresh (λ x. refl) sent)
        ]
      ]
