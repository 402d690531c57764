-- ===== src/Postgres/Inbox/ExactlyOnce.antt =====
-- A handler's work is committed once for each message: the inbox pipeline over the tables.
pub mod Pipeline
pub mod Acked
pub mod Recorded
pub mod Deliveries
use sisa_messaging_rs.Prelude.{
  ℕ, ◌≡◌, refl, sym, ap, ◌∙◌, Bool, true, false, not, ◌||◌, List, [], ◌∷◌, ◌++◌, Option, none, some,
  Result, ok, err, map_err, map, arith, Bool-cases, Option-cases, Result-cases, inl, inr,
}
use sisa_messaging_rs.Prelude.Lists.{any_of}
use sisa_messaging_rs.Prelude.Acts.{Act, pure, ◌>>=◌, ◌>>?◌, >>?-cases}
use sisa_messaging_rs.Prelude.Text.{Text}
use sisa_messaging_rs.Prelude.Maps
use sisa_messaging_rs.Core.MessageId.{UuidText}
use sisa_messaging_rs.Core.Time.Timestamp
use sisa_messaging_rs.Core.Envelope.Source.{Source}
use sisa_messaging_rs.Core.Envelope.Defs.{Envelope}
use sisa_messaging_rs.Core.Store.{StoreError, InboxStore}
use sisa_messaging_rs.Runtime.Handler
use sisa_messaging_rs.Runtime.Handler.{HandlerContext}
use sisa_messaging_rs.Runtime.Endpoint.{
  Unwind, returned, panicked, Failure, Conversions, Handlers, ErasedHandler, caught, find, call,
}
use sisa_messaging_rs.Runtime.Inbox.{
  HandlerOutbox, skip, handle, in_transaction, transactional, stored,
}
use sisa_messaging_rs.Postgres.Inbox.{
  PostgresInbox, Receipt, same_message, conflicts, Database, Transaction, CommitOutcome, committed,
  committed_unseen, not_committed, ended, World, next, Answers, begin, receipt, insert_receipt,
  record_receipt, apply, commit, postgres_inbox,
}

-- The row that a handler writes for a message: on which endpoint it was handled, its id, its time.
pub record Work : Type 0 where
  pub endpoint : Text
  pub message_id : ℕ
  pub message_time : ℕ

abbrev pub work_of : Receipt → Work
work_of r = record {
  endpoint = r.endpoint;
  message_id = r.message_id;
  message_time = r.message_time;
}

-- No two receipts are of one message on one endpoint.
abbrev pub Distinct : List Receipt → Type 0
Distinct [] = Unit
Distinct (r ∷ rs) = (any_of (same_message r) rs ≡ false) × Distinct rs

-- The committed rows of the handlers are one for each receipt, and receipts are distinct.
pub record IsOnce (db : Database Work) : Type 0 where
  pub rows_are : db.rows ≡ map work_of db.receipts
  pub distinct : Distinct db.receipts

module _ (answers : Answers Work) where
  abbrev pub work_in : {T : Type 0} → HandlerContext T → Work
  work_in c = record {
    endpoint = c.endpoint;
    message_id = c.envelope.id.uuid;
    message_time = answers.timestamptz (Timestamp.to_string c.envelope.time);
  }

  -- What is asked of a handler: it works in its transaction only, and when it returns `Ok` it has
  -- added its one row and left the receipt alone. It may have made any statement fail.
  pub record WorksOnce (handler : ErasedHandler (World Work) (Transaction Work)) : Type 0 where
    pub apart : (c : HandlerContext (Transaction Work)) (w : World Work) → (handler c w).1.db ≡ w.db
    pub adds :
        (c c' : HandlerContext (Transaction Work)) (w : World Work)
        → (handler c w).0 ≡ returned (ok c')
        → (c'.transaction.new_receipts ≡ c.transaction.new_receipts)
          × (c'.transaction.new_rows ≡ work_in c ∷ c.transaction.new_rows)

-- What is asked of the outbox: it writes its own table, in the transaction.
pub record KeepsWork (outbox : HandlerOutbox (World Work) (Transaction Work)) : Type 0 where
  pub apart :
      (t : Transaction Work) (held : List Envelope) (w : World Work)
      → (outbox.write t held w).1.db ≡ w.db
  pub keeps :
      (t t' : Transaction Work) (held held' : List Envelope) (w : World Work)
      → (outbox.write t held w).0 ≡ ok (t', held')
      → (t'.new_receipts ≡ t.new_receipts) × (t'.new_rows ≡ t.new_rows)

conflicts-same :
    (r : Receipt) (rs : List Receipt)
    → any_of (conflicts r) rs ≡ false
    → any_of (same_message r) rs ≡ false
conflicts-same r [] h = refl
conflicts-same r (x ∷ rs) h = ground (arith, conflicts-same r rs)

map_err-ok : {E F A : Type 0} (f : E → F) (r : Result E A) {a : A} → map_err f r ≡ ok a → r ≡ ok a
map_err-ok f (ok a) h = ground arith
map_err-ok f (err e) h = cc

caught-ok :
    {A : Type 0} (u : Unwind (Result Failure A)) {a : A} → caught u ≡ ok a → u ≡ returned (ok a)
caught-ok (returned r) h = ap returned h
caught-ok (panicked p) h = cc

module _ (answers : Answers Work) (uuid : UuidText) (settings : PostgresInbox) where
  commit-IsOnce :
      (t : Transaction Work) (w : World Work)
      → IsOnce w.db
      → IsOnce (apply t w.db)
      → IsOnce (commit answers uuid settings t w).1.db
  unfolding commit
  commit-IsOnce t w before after = elim (Bool-cases t.aborted) [
    | inl e ↦ rw e before
    | inr e ↦ rw e (go (answers.commits w))
  ]
    where
      go : (c : CommitOutcome) → IsOnce (ended t w c).1.db
      go committed = after
      go (committed_unseen e) = after
      go (not_committed e) = before
