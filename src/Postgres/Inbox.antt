-- ===== src/Postgres/Inbox.antt =====
-- crates/postgres/src/inbox.rs: the inbox in `inbox_receipts`. The statements are functions on the
-- table's rows; how PostgreSQL answers (a lost connection, a failed statement, the outcome of a
-- commit) is any function of the state. A transaction sees the committed rows and its own.
pub mod ExactlyOnce
use sisa_messaging_rs.Prelude.{
  ℕ, suc, Bool, true, false, ◌&&◌, ◌||◌, List, [], ◌∷◌, ◌++◌, Option, none, some, Result, ok, err,
  ◌==◌, if◌then◌else◌,
}
use sisa_messaging_rs.Prelude.Lists.{any_of}
use sisa_messaging_rs.Prelude.Acts.{Act, pure, ◌>>=◌}
use sisa_messaging_rs.Prelude.Text.{Text, codes, text_eq}
use sisa_messaging_rs.Prelude.Maps
use sisa_messaging_rs.Core.MessageId.{MessageId, UuidText}
use sisa_messaging_rs.Core.Time.Timestamp
use sisa_messaging_rs.Core.Envelope.Defs.{Envelope}
use sisa_messaging_rs.Core.Envelope.Attributes.{Attributes, to_attributes}
use sisa_messaging_rs.Core.Store.{StoreError, database, InboxStore}

-- The settings of an inbox; its pool is the database.
pub record PostgresInbox : Type 0 where
  pub keeps_data : Bool

abbrev pub new : PostgresInbox
new = record { keeps_data = false }

abbrev pub keep_data : Bool → PostgresInbox → PostgresInbox
keep_data keeps_data inbox = record inbox { keeps_data = keeps_data }

-- `COLUMN_ATTRIBUTES`.
unfoldable pub column_attributes : List Text
column_attributes =
    codes "specversion"
    ∷ (codes "id" ∷ (codes "type" ∷ (codes "source" ∷ (codes "correlationid" ∷ []))))

unfoldable pub remove_all : List Text → Attributes → Attributes
remove_all [] m = m
remove_all (name ∷ names) m = remove_all names (Maps.remove name m)

unfoldable pub attributes : UuidText → Envelope → Attributes
attributes uuid envelope = remove_all column_attributes (to_attributes uuid envelope)

-- A row of `inbox_receipts`, but for the time it was received.
pub record Receipt : Type 0 where
  pub id : ℕ
  pub message_time : ℕ
  pub endpoint : Text
  pub message_id : ℕ
  pub message_type : Text
  pub source : Text
  pub correlation_id : Option MessageId
  pub attributes : Attributes
  pub body : Option (List ℕ)

-- The columns of `uq_inbox_receipts_endpoint_message` and those of `pk_inbox_receipts`.
abbrev pub same_message : Receipt → Receipt → Bool
same_message a b =
    text_eq a.endpoint b.endpoint
    && ((a.message_id == b.message_id) && (a.message_time == b.message_time))

abbrev pub same_key : Receipt → Receipt → Bool
same_key a b = (a.message_time == b.message_time) && (a.id == b.id)

abbrev pub conflicts : Receipt → Receipt → Bool
conflicts a b = same_message a b || same_key a b

-- The committed tables: the receipts, and the handlers' own rows.
pub record Database (Row : Type 0) : Type 0 where
  pub receipts : List Receipt
  pub rows : List Row

-- What a transaction wrote, newest first; a failed statement aborts it.
pub record Transaction (Row : Type 0) : Type 0 where
  pub new_receipts : List Receipt
  pub new_rows : List Row
  pub aborted : Bool

pub data CommitOutcome : Type 0 where
  committed : CommitOutcome
  committed_unseen : StoreError → CommitOutcome  -- the connection dropped after the commit
  not_committed : StoreError → CommitOutcome

-- The database and a counter of what happened.
pub record World (Row : Type 0) : Type 0 where
  pub db : Database Row
  pub tick : ℕ

abbrev pub next : {Row : Type 0} → World Row → World Row
next w = record w { tick = suc w.tick }

-- How PostgreSQL and the clock answer: whether a transaction begins, whether the insert fails, how
-- a commit ends, a new receipt's id, and the instant that `::timestamptz` reads in a text.
pub record Answers (Row : Type 0) : Type 0 where
  pub begins : World Row → Option StoreError
  pub inserts : World Row → Option StoreError
  pub commits : World Row → CommitOutcome
  pub new_id : World Row → ℕ
  pub timestamptz : Text → ℕ

module _ {Row : Type 0} where
  abbrev pub apply : Transaction Row → Database Row → Database Row
  apply t db = record { receipts = t.new_receipts ++ db.receipts; rows = t.new_rows ++ db.rows }

  -- How a commit's outcome leaves the database.
  abbrev pub ended :
      Transaction Row → World Row → CommitOutcome → Result StoreError (Unit {0}) × World Row
  ended t w committed = (ok tt, next (record w { db = apply t w.db }))
  ended t w (committed_unseen e) = (err e, next (record w { db = apply t w.db }))
  ended t w (not_committed e) = (err e, next w)

module _ {Row : Type 0} (answers : Answers Row) (uuid : UuidText) (settings : PostgresInbox) where
  unfoldable pub begin : Act (World Row) (Result StoreError (Transaction Row))
  begin w = elim (answers.begins w) [
    | none ↦ (ok (record { new_receipts = []; new_rows = []; aborted = false }), next w)
    | some e ↦ (err e, next w)
  ]

  unfoldable pub receipt : ℕ → Text → Envelope → Receipt
  receipt id endpoint envelope = record {
    id = id;
    message_time = answers.timestamptz (Timestamp.to_string envelope.time);
    endpoint = endpoint;
    message_id = envelope.id.uuid;
    message_type = envelope.message_type.value;
    source = envelope.source.value;
    correlation_id = envelope.correlation.correlation_id;
    attributes = attributes uuid envelope;
    body = if settings.keeps_data then some envelope.body else none;
  }

  -- `INSERT ... ON CONFLICT DO NOTHING`, and whether it wrote its row.
  unfoldable pub insert_receipt : Receipt → Database Row → Transaction Row → Bool × Transaction Row
  insert_receipt r db t =
      if any_of (conflicts r) (t.new_receipts ++ db.receipts)
      then (false, t)
      else (true, record t { new_receipts = r ∷ t.new_receipts })

  unfoldable pub record_receipt :
      Transaction Row → Text → Envelope → Act (World Row) (Result StoreError Bool × Transaction Row)
  unfolding receipt insert_receipt
  record_receipt t endpoint envelope w = elim (answers.inserts w) [
    | some e ↦ ((err e, record t { aborted = true }), next w)
    | none ↦
        let (new, t') = insert_receipt (receipt (answers.new_id w) endpoint envelope) w.db t in
        ((ok new, t'), next w)
  ]

  -- `SELECT 1` fails on an aborted transaction, so such a one is never committed.
  unfoldable pub commit : Transaction Row → Act (World Row) (Result StoreError (Unit {0}))
  commit t w =
      if t.aborted
      then (err (database "checking the inbox transaction before its commit" []), next w)
      else ended t w (answers.commits w)

  abbrev pub postgres_inbox : InboxStore (World Row) (Transaction Row)
  postgres_inbox = record { begin = begin; record_receipt = record_receipt; commit = commit }
