-- ===== src/Postgres/Inbox/ExactlyOnce/Pipeline.antt =====
-- crates/runtime/src/inbox.rs over crates/postgres/src/inbox.rs: each delivery keeps the committed
-- work at once for each message.
use sisa_messaging_rs.Prelude.{
  ◌≡◌, refl, ap, ◌∙◌, Bool, true, false, List, [], ◌∷◌, ◌++◌, Result, ok, err, Bool-cases,
  Option-cases, inl, inr, subst,
}
use sisa_messaging_rs.Prelude.Lists.{any_of}
use sisa_messaging_rs.Prelude.Acts.{pure, ◌>>?◌, >>?-cases}
use sisa_messaging_rs.Core.MessageId.{UuidText}
use sisa_messaging_rs.Core.Envelope.Defs.{Envelope}
use sisa_messaging_rs.Core.Store.{StoreError, InboxStore}
use sisa_messaging_rs.Runtime.Handler
use sisa_messaging_rs.Runtime.Handler.{HandlerContext}
use sisa_messaging_rs.Runtime.Endpoint.{Conversions, ErasedHandler, call}
use sisa_messaging_rs.Runtime.Inbox.{HandlerOutbox, skip, handle, proceed, in_transaction, stored}
use sisa_messaging_rs.Postgres.Inbox.{
  PostgresInbox, Receipt, same_message, conflicts, Database, Transaction, World, next, Answers,
  receipt, insert_receipt, record_receipt, apply, commit, postgres_inbox,
}
use sisa_messaging_rs.Postgres.Inbox.ExactlyOnce.{
  Work, work_of, IsOnce, work_in, WorksOnce, KeepsWork, conflicts-same, map_err-ok, caught-ok,
  commit-IsOnce,
}

abbrev pub Once : {A : Type 0} → A × World Work → Type 0
Once r = IsOnce r.1.db

abbrev Pending : Database Work → Receipt → Transaction Work → Type 0
Pending db r t =
    (any_of (same_message r) db.receipts ≡ false) × ((t.new_receipts ≡ r ∷ []) × (t.new_rows ≡ []))

abbrev Complete : Database Work → Receipt → Transaction Work → Type 0
Complete db r t =
    (any_of (same_message r) db.receipts ≡ false)
    × ((t.new_receipts ≡ r ∷ []) × (t.new_rows ≡ work_of r ∷ []))

Complete-IsOnce :
    (db : Database Work) (r : Receipt) (t : Transaction Work)
    → IsOnce db
    → Complete db r t
    → IsOnce (apply t db)
Complete-IsOnce db r t once (fresh, (receipts, rows)) = record {
  rows_are = rw (receipts, rows, once.rows_are) refl;
  distinct = rw receipts (fresh, once.distinct);
}

module _ (answers : Answers Work) (uuid : UuidText) (settings : PostgresInbox) where
  abbrev pub start_receipt : HandlerContext (Unit {0}) → World Work → Receipt
  start_receipt context w =
      receipt answers uuid settings (answers.new_id w) context.endpoint context.envelope

  -- By what the insert of the receipt answers.
  pub record_receipt-cases :
      (P : (Result StoreError Bool × Transaction Work) × World Work → Type 0)
      (context : HandlerContext (Unit {0})) (t : Transaction Work) (w : World Work)
      → ((e : StoreError) → P ((err e, record t { aborted = true }), next w))
      → (any_of (conflicts (start_receipt context w)) (t.new_receipts ++ w.db.receipts) ≡ true
          → P ((ok false, t), next w))
      → (any_of (conflicts (start_receipt context w)) (t.new_receipts ++ w.db.receipts) ≡ false
          → P (
            (ok true, record t { new_receipts = start_receipt context w ∷ t.new_receipts }),
            next w,
          ))
      → P (record_receipt answers uuid settings t context.endpoint context.envelope w)
  unfolding record_receipt insert_receipt
  record_receipt-cases P context t w failed known new = elim (Option-cases (answers.inserts w)) [
    | inl e ↦
        elim (Bool-cases
          (any_of (conflicts (start_receipt context w)) (t.new_receipts ++ w.db.receipts))) [
            | inl seen ↦ rw (record_receipt, e, insert_receipt, seen) (known seen)
            | inr unseen ↦ rw (record_receipt, e, insert_receipt, unseen) (new unseen)
          ]
    | inr (error, e) ↦ rw (record_receipt, e) (failed error)
  ]

module _ (answers : Answers Work) (uuid : UuidText) (settings : PostgresInbox)
    (conversions : Conversions) (outbox : HandlerOutbox (World Work) (Transaction Work))
    (keeps : KeepsWork outbox) where
  abbrev inbox : InboxStore (World Work) (Transaction Work)
  inbox = postgres_inbox answers uuid settings

  finish-IsOnce :
      {A : Type 0} (a : A) (t : Transaction Work) (w : World Work)
      → IsOnce w.db
      → IsOnce (apply t w.db)
      → Once (
          (stored conversions inbox outbox (commit answers uuid settings t) >>? λ _. pure (ok a)) w)
  finish-IsOnce a t w before after =
      >>?-cases Once (stored conversions inbox outbox (commit answers uuid settings t))
        (λ _. pure (ok a)) w (λ _ _. commit-IsOnce answers uuid settings t w before after)
        (λ _ _. commit-IsOnce answers uuid settings t w before after)

  -- The transaction may be committed as it is, over a database that has not changed.
  abbrev Committable : Database Work → Transaction Work → Type 0
  Committable db t = IsOnce db × IsOnce (apply t db)

  write-IsOnce :
      (t : Transaction Work) (held : List Envelope) (r : Receipt) (w : World Work)
      → IsOnce w.db
      → Complete w.db r t
      → Once (
          (stored conversions inbox outbox (outbox.write t held) >>? λ (t', held').
          stored conversions inbox outbox (commit answers uuid settings t') >>? λ _.
          pure (ok held'))
            w)
  write-IsOnce t held r w once (fresh, (receipts, rows)) =
      >>?-cases Once (stored conversions inbox outbox (outbox.write t held))
        (λ (t', held'). stored conversions inbox outbox (commit answers uuid settings t') >>? λ _.
          pure (ok held'))
        w
        (λ (t', held') wrote.
          let kept = keeps.keeps t t' held held' w (map_err-ok _ (outbox.write t held w).0 wrote) in
          finish-IsOnce held' t' (outbox.write t held w).1 same (
            Complete-IsOnce (outbox.write t held w).1.db r t' same
              (rw (keeps.apart t held w) fresh, (kept.0 ∙ receipts, kept.1 ∙ rows))))
        (λ _ _. same)
    where
      same : IsOnce (outbox.write t held w).1.db
      same = rw (keeps.apart t held w) once

  handle-IsOnce :
      (handler : ErasedHandler (World Work) (Transaction Work))
      (context : HandlerContext (Unit {0})) (t : Transaction Work) (r : Receipt) (w : World Work)
      → WorksOnce answers handler
      → work_of r ≡ work_in answers context
      → IsOnce w.db
      → Pending w.db r t
      → Once (handle conversions inbox outbox handler context t w)
  unfolding handle call Handler.with_transaction
  handle-IsOnce handler context t r w works same once (fresh, (receipts, rows)) =
      >>?-cases Once (call handler c) _ w
        (λ c' called.
          let added = works.adds c c' w (caught-ok (handler c w).0 called) in
          write-IsOnce c'.transaction c'.held r (handler c w).1 unchanged
            (rw (works.apart c w) fresh, (added.0 ∙ receipts, rw (added.1, rows, same) refl)))
        (λ _ _. unchanged)
    where
      c : HandlerContext (Transaction Work)
      c = (Handler.with_transaction context t).0

      unchanged : IsOnce (handler c w).1.db
      unchanged = rw (works.apart c w) once

  abbrev Empty : Transaction Work → Type 0
  Empty t = (t.new_receipts ≡ []) × (t.new_rows ≡ [])

  Empty-IsOnce :
      (t : Transaction Work) (db : Database Work) → Empty t → IsOnce db → IsOnce (apply t db)
  Empty-IsOnce t db (receipts, rows) once = record {
    rows_are = rw (receipts, rows) once.rows_are;
    distinct = rw receipts once.distinct;
  }

  skip-IsOnce :
      (t : Transaction Work) (w : World Work)
      → Empty t
      → IsOnce w.db
      → Once (skip conversions inbox outbox t w)
  unfolding skip
  skip-IsOnce t w empty once = finish-IsOnce [] t w once (Empty-IsOnce t w.db empty once)

  pub in_transaction-IsOnce :
      (handler : ErasedHandler (World Work) (Transaction Work))
      (context : HandlerContext (Unit {0})) (t : Transaction Work) (w : World Work)
      → WorksOnce answers handler
      → Empty t
      → IsOnce w.db
      → Once (in_transaction conversions inbox outbox context.endpoint handler context t w)
  unfolding in_transaction proceed receipt
  in_transaction-IsOnce handler context t w works empty once =
      record_receipt-cases answers uuid settings
        (λ (recorded, w'). Once (proceed conversions inbox outbox handler context recorded w'))
        context t w (λ e. once) (λ _. skip-IsOnce t (next w) empty once)
        (λ unseen.
          let r = start_receipt answers uuid settings context w in
          handle-IsOnce handler context (record t { new_receipts = r ∷ t.new_receipts }) r (next w)
            works refl once
            (
              conflicts-same r w.db.receipts
                  (subst (λ l. any_of (conflicts r) (l ++ w.db.receipts) ≡ false) empty.0 unseen),
              (ap (λ l. r ∷ l) empty.0, empty.1),
            ))
