-- ===== src/Postgres/Outbox.antt =====
-- crates/postgres/src/outbox.rs: the outbox in `outbox_messages`. The statements are functions on
-- the table's rows. A `timestamptz` is a count of microseconds; how PostgreSQL writes one as JSON,
-- reads one from text, and makes an interval of a duration are parameters, and so are the clock,
-- the rows that other transactions have locked, and which statements fail.
pub mod History
pub mod RoundTrip
pub mod Selected
pub mod Statements
use sisa_messaging_rs.Prelude.{
  ℕ, suc, ◌+◌, ◌-◌, ◌^◌, Bool, true, false, not, ◌&&◌, ◌||◌, List, [], ◌∷◌, ◌++◌, Option, none,
  some, Result, ok, err, map_err, map, min, leb, ltb, ◌==◌, ◌>>=◌ as ◌>>!◌, if◌then◌else◌,
}
use sisa_messaging_rs.Prelude.Lists.{take, any_of}
use sisa_messaging_rs.Prelude.Acts.{Act, pure, ◌>>=◌, ◌>>?◌}
use sisa_messaging_rs.Prelude.Text.{Text, codes, text_eq}
use sisa_messaging_rs.Prelude.Maps
use sisa_messaging_rs.Prelude.Maps.{Map}
use sisa_messaging_rs.Core.Error.{EnvelopeError}
use sisa_messaging_rs.Core.MessageId
use sisa_messaging_rs.Core.MessageId.{UuidText}
use sisa_messaging_rs.Core.Time.Timestamp
use sisa_messaging_rs.Core.Time.Timestamp.{Timestamp}
use sisa_messaging_rs.Core.Envelope.Defs.{Envelope}
use sisa_messaging_rs.Core.Envelope.Attributes.{
  Attributes, insert_some, to_attributes, from_attributes,
}
use sisa_messaging_rs.Core.Store.{StoreError, database, OutboxRecord, OutboxStore, Duration}

-- `COLUMN_ATTRIBUTES`.
unfoldable pub column_attributes : List Text
column_attributes =
    codes "specversion"
    ∷ (codes "id"
        ∷ (codes "type"
            ∷ (codes "source"
                ∷ (codes "subject"
                    ∷ (codes "partitionkey"
                        ∷ (codes "datacontenttype" ∷ (codes "dataschema" ∷ [])))))))

-- The loop of `attributes`.
unfoldable pub remove_all : List Text → Attributes → Attributes
remove_all [] m = m
remove_all (name ∷ names) m = remove_all names (Maps.remove name m)

unfoldable pub attributes : UuidText → Envelope → Attributes
unfolding remove_all column_attributes
attributes uuid envelope = remove_all column_attributes (to_attributes uuid envelope)

-- What a JSON object may hold: a string, or any other value, as it is displayed.
pub data JsonValue : Type 0 where
  string other : Text → JsonValue

pub data Status : Type 0 where
  pending dispatched failed : Status

-- A row of `outbox_messages`.
pub record Row : Type 0 where
  pub id : ℕ
  pub created_at : ℕ
  pub message_type : Text
  pub source : Text
  pub subject : Option Text
  pub partition_key : Option Text
  pub content_type : Text
  pub data_schema : Option Text
  pub attributes : Map JsonValue
  pub body : List ℕ
  pub status : Status
  pub available_at : ℕ
  pub attempts : ℕ
  pub last_error : Option Text
  pub dispatched_at : Option ℕ

abbrev pub is_pending : Status → Bool
is_pending pending = true
is_pending dispatched = false
is_pending failed = false

-- The texts that the code reads and writes times as, and the errors' `Display`.
pub record Texts : Type 0 where
  pub to_json : ℕ → Text
  pub timestamptz : Text → ℕ
  pub interval : Duration → ℕ
  pub show_envelope_error : EnvelopeError → Text

-- The loop over the attributes: the first that is not a string is an error.
unfoldable pub read_strings : Map JsonValue → Attributes → Result Text Attributes
read_strings [] m = ok m
read_strings ((name, string value) ∷ rest) m = read_strings rest (Maps.insert name value m)
read_strings ((name, other shown) ∷ rest) m =
    err (codes "attribute `" ++ (name ++ (codes "` is " ++ (shown ++ codes ", not a string"))))

module _ (uuid : UuidText) where
  -- The loop over the columns.
  unfoldable pub insert_columns : Row → Attributes → Attributes
  insert_columns r m = insert_some (codes "dataschema") r.data_schema (
      insert_some (codes "partitionkey") r.partition_key (
        insert_some (codes "subject") r.subject (
          Maps.insert (codes "datacontenttype") r.content_type (
            Maps.insert (codes "source") r.source (
              Maps.insert (codes "type") r.message_type (
                Maps.insert (codes "id") (uuid.hyphenated r.id)
                  (Maps.insert (codes "specversion") (codes "1.0") m)))))))

  -- `timestamp`.
  unfoldable pub timestamp : Texts → Text → Text → Result Text Timestamp
  timestamp texts column text =
      map_err (λ e. column ++ (codes ": " ++ texts.show_envelope_error e)) (Timestamp.from_str text)

  -- `record`.
  unfoldable pub record_of : Texts → Row → Result Text OutboxRecord
  unfolding insert_columns timestamp
  record_of texts r = read_strings r.attributes [] >>! λ strings.
      map_err texts.show_envelope_error (from_attributes uuid (insert_columns r strings) r.body)
      >>! λ envelope.
          timestamp texts (codes "created_at") (texts.to_json r.created_at) >>! λ created_at.
          timestamp texts (codes "available_at") (texts.to_json r.available_at) >>! λ until.
          ok (record {
            envelope = envelope;
            created_at = created_at;
            attempts = r.attempts;
            leased_until = until;
          })

  -- A row as `INSERT` writes it, at the transaction's time.
  unfoldable pub row_of : ℕ → Envelope → Row
  row_of now e = record {
    id = e.id.uuid;
    created_at = now;
    message_type = e.message_type.value;
    source = e.source.value;
    subject = e.subject;
    partition_key = e.partition_key;
    content_type = e.content_type.value;
    data_schema = e.data_schema;
    attributes = map (λ a. (a.0, string a.1)) (attributes uuid e);
    body = e.body;
    status = pending;
    available_at = now;
    attempts = 0;
    last_error = none;
    dispatched_at = none;
  }
