-- ===== src/Tests/Inbox.antt =====
-- The inbox over the tables: a handler that writes its row, and the same message delivered twice.
use sisa_messaging_rs.Prelude.{
  ℕ, ◌≡◌, refl, true, List, [], ◌∷◌, Option, none, some, Result, ok, err, subst, Bool-cases, inl,
  inr,
}
use sisa_messaging_rs.Prelude.Text.{codes, text_eq}
use sisa_messaging_rs.Prelude.Maps
use sisa_messaging_rs.Core.Store.{StoreError}
use sisa_messaging_rs.Core.Envelope.Defs.{Envelope}
use sisa_messaging_rs.Runtime.Handler
use sisa_messaging_rs.Runtime.Handler.{HandlerContext}
use sisa_messaging_rs.Runtime.Endpoint.{
  Unwind, returned, panicked, Failure, Handlers, ErasedHandler, find, call,
}
use sisa_messaging_rs.Runtime.Inbox.{
  no_outbox, transactional, in_transaction, proceed, handle, skip,
}
use sisa_messaging_rs.Postgres.Inbox
use sisa_messaging_rs.Postgres.Inbox.{
  PostgresInbox, keep_data, Transaction, committed, World, Answers, begin, record_receipt, commit,
  receipt, insert_receipt,
}
use sisa_messaging_rs.Postgres.Inbox.ExactlyOnce.{Work, IsOnce, work_in, WorksOnce, KeepsWork}
use sisa_messaging_rs.Postgres.Inbox.ExactlyOnce.Deliveries.{
  Received, AllWorkOnce, deliver, deliver_all, deliver_all-IsOnce,
}
use sisa_messaging_rs.Postgres.Inbox.ExactlyOnce.Recorded.{IsRecorded, deliver-same}
use sisa_messaging_rs.Postgres.Inbox.ExactlyOnce.Acked.{deliver-IsRecorded}
use sisa_messaging_rs.Tests.Sample.{uuid, conversions, order}

-- Every statement succeeds; a receipt's id is the number of what happened.
abbrev answers : Answers Work
answers = record {
  begins = λ w. none;
  inserts = λ w. none;
  commits = λ w. committed;
  new_id = λ w. w.tick;
  timestamptz = λ text. 1_700_000_000;
}

abbrev Context : Type 0
Context = HandlerContext (Transaction Work)

abbrev work : Context → Context
work c = record c {
  transaction = record c.transaction { new_rows = work_in answers c ∷ c.transaction.new_rows };
}

abbrev handler : ErasedHandler (World Work) (Transaction Work)
handler c w = (returned (ok (work c)), w)

abbrev Adds : Context → Unwind (Result Failure Context) → Type 0
Adds c (returned (ok c')) =
    (c'.transaction.new_receipts ≡ c.transaction.new_receipts)
    × (c'.transaction.new_rows ≡ work_in answers c ∷ c.transaction.new_rows)
Adds c (returned (err f)) = Unit
Adds c (panicked p) = Unit

handler-WorksOnce : WorksOnce answers handler
handler-WorksOnce = record {
  apart = λ c w. refl;
  adds = λ c c' w done. subst (Adds c) done (refl, refl);
}

abbrev Keeps : Transaction Work → Result StoreError (Transaction Work × List Envelope) → Type 0
Keeps t (ok (t', held)) = (t'.new_receipts ≡ t.new_receipts) × (t'.new_rows ≡ t.new_rows)
Keeps t (err e) = Unit

no_outbox-KeepsWork : KeepsWork no_outbox
no_outbox-KeepsWork = record {
  apart = λ t held w. refl;
  keeps = λ t t' held held' w done. subst (Keeps t) done (refl, refl);
}

abbrev handlers : Handlers (World Work) (Transaction Work)
handlers = (codes "order_placed.v1", handler) ∷ []

abbrev IsWorking : Option (ErasedHandler (World Work) (Transaction Work)) → Type 0
IsWorking none = Unit
IsWorking (some h) = WorksOnce answers h

handlers-AllWorkOnce : AllWorkOnce answers handlers
unfolding Maps.get
handlers-AllWorkOnce k h found =
    subst IsWorking found (elim (Bool-cases (text_eq (codes "order_placed.v1") k)) [
      | inl e ↦ rw e handler-WorksOnce
      | inr e ↦ rw e tt
    ])

abbrev received : ℕ → Received
received id = record {
  source = record { value = codes "billing" };
  endpoint = codes "billing";
  handlers = handlers;
  envelope = order id;
  attempt = 1;
}

abbrev start : World Work
start = record { db = record { receipts = []; rows = [] }; tick = 0 }

abbrev redelivered : List Received
redelivered = received 7 ∷ (received 8 ∷ (received 7 ∷ []))

abbrev settings : PostgresInbox
settings = keep_data true Inbox.new

abbrev after_all : World Work
after_all = deliver_all answers uuid settings conversions no_outbox redelivered start

start-IsOnce : IsOnce start.db
start-IsOnce = record { rows_are = refl; distinct = tt }

abbrev one : ℕ → Work
one id = record { endpoint = codes "billing"; message_id = id; message_time = 1_700_000_000 }

test_rows : after_all.db.rows ≡ one 8 ∷ (one 7 ∷ [])
unfolding transactional find Handler.new in_transaction proceed handle skip begin record_receipt
    insert_receipt receipt commit call Maps.get Handler.with_transaction
test_rows = refl

deliver_all-IsOnce_example : IsOnce after_all.db
deliver_all-IsOnce_example =
    deliver_all-IsOnce answers uuid settings conversions no_outbox redelivered start
      no_outbox-KeepsWork (handlers-AllWorkOnce, (handlers-AllWorkOnce, (handlers-AllWorkOnce, tt)))
      start-IsOnce

abbrev once : World Work
once = (deliver answers uuid settings conversions no_outbox (received 7) start).1

once_ok : (deliver answers uuid settings conversions no_outbox (received 7) start).0 ≡ ok []
unfolding transactional find Handler.new in_transaction proceed handle skip begin record_receipt
    insert_receipt receipt commit call Maps.get Handler.with_transaction
once_ok = refl

once-IsRecorded : IsRecorded answers uuid settings (received 7) once.db
unfolding transactional find Handler.new in_transaction proceed handle skip begin record_receipt
    insert_receipt receipt commit call Maps.get Handler.with_transaction
once-IsRecorded = refl

deliver-same_example :
    (deliver answers uuid settings conversions no_outbox (received 7) once).1.db ≡ once.db
deliver-same_example =
    deliver-same answers uuid settings conversions no_outbox (received 7) once once-IsRecorded

deliver-IsRecorded_example : IsRecorded answers uuid settings (received 7) once.db
deliver-IsRecorded_example =
    deliver-IsRecorded answers uuid settings conversions no_outbox no_outbox-KeepsWork (received 7)
      start [] handlers-AllWorkOnce refl once_ok
