-- ===== src/Core/Envelope/Attributes.antt =====
-- crates/core/src/envelope.rs: the envelope as CloudEvents attributes and back.
pub mod Fields
pub mod Written
pub mod Stripped
pub mod Reading
pub mod RoundTrip
use sisa_messaging_rs.Prelude.{
  ℕ, Bool, not, List, [], ◌∷◌, Option, none, some, Result, ok, err, ok_or, map_err, ◌>>=◌, ◌>>◌,
  if◌then◌else◌,
}
use sisa_messaging_rs.Prelude.Options
use sisa_messaging_rs.Prelude.Text.{Text, codes, text_eq}
use sisa_messaging_rs.Prelude.Maps
use sisa_messaging_rs.Prelude.Maps.{Map}
use sisa_messaging_rs.Core.Error.{EnvelopeError, invalid, missing_attribute}
use sisa_messaging_rs.Core.MessageType
use sisa_messaging_rs.Core.MessageId
use sisa_messaging_rs.Core.MessageId.{MessageId, UuidText}
use sisa_messaging_rs.Core.Time.Timestamp
use sisa_messaging_rs.Core.Envelope.Source
use sisa_messaging_rs.Core.Envelope.ContentType
use sisa_messaging_rs.Core.Envelope.Extensions
use sisa_messaging_rs.Core.Envelope.Extensions.{Extensions}
use sisa_messaging_rs.Core.Envelope.Defs.{Correlation, TraceContext, Envelope}
use mathlib.Core.Option

abbrev pub Attributes : Type 0
Attributes = Map Text

-- `attributes.insert(name, value)` where the value is there.
unfoldable pub insert_some : Text → Option Text → Attributes → Attributes
insert_some name none m = m
insert_some name (some v) m = Maps.insert name v m

-- The loop over the extensions.
unfoldable pub insert_all : List (Text × Text) → Attributes → Attributes
insert_all [] m = m
insert_all ((name, value) ∷ rest) m = insert_all rest (Maps.insert name value m)

-- `attributes.remove(name)`: what is left, and the value.
abbrev pub take_out : Text → Attributes → Option Text × Attributes
take_out name m = (Maps.get name m, Maps.remove name m)

-- `required`.
unfoldable pub required : Text → Attributes → Result EnvelopeError (Text × Attributes)
required name m =
    let (found, rest) = take_out name m in
    elim found [ some value ↦ ok (value, rest) | none ↦ err (missing_attribute name) ]

-- The loop of `from_attributes` over what is left.
unfoldable pub read_extensions : List (Text × Text) → Extensions → Result EnvelopeError Extensions
read_extensions [] e = ok e
read_extensions ((name, value) ∷ rest) e = do
  (e', _) ← Extensions.insert e name value
  read_extensions rest e'

abbrev pub traceparent_of : TraceContext → Text
traceparent_of t = t.traceparent

abbrev pub tracestate_of : Option TraceContext → Option Text
tracestate_of none = none
tracestate_of (some t) = t.tracestate

abbrev pub check_specversion : Text → Result EnvelopeError (Unit {0})
check_specversion v =
    if text_eq v (codes "1.0")
    then ok tt
    else err (invalid (codes "specversion") "only CloudEvents 1.0 is supported")

module _ (uuid : UuidText) where
  -- `optional_id`.
  unfoldable pub optional_id :
      Text → Attributes → Result EnvelopeError (Option MessageId × Attributes)
  optional_id name m =
      let (found, rest) = take_out name m in
      elim found [
        | none ↦ ok (none, rest)
        | some value ↦ elim (MessageId.from_str uuid value) [
          | ok id ↦ ok (some id, rest)
          | err _ ↦ err (invalid name "not a UUID")
        ]
      ]

  -- The six required attributes.
  unfoldable pub required_attributes : Envelope → Attributes
  required_attributes e = Maps.insert (codes "datacontenttype") e.content_type.value (
      Maps.insert (codes "time") (Timestamp.to_string e.time) (
        Maps.insert (codes "type") e.message_type.value (
          Maps.insert (codes "source") e.source.value (
            Maps.insert (codes "id") (MessageId.to_string uuid e.id)
              (Maps.insert (codes "specversion") (codes "1.0") [])))))

  unfoldable pub optional_attributes : Envelope → Attributes → Attributes
  optional_attributes e m = insert_some (codes "tracestate") (tracestate_of e.trace) (
      insert_some (codes "traceparent") (Option.map traceparent_of e.trace) (
        insert_some (codes "causationid")
          (Option.map (MessageId.to_string uuid) e.correlation.causation_id)
          (insert_some (codes "correlationid")
            (Option.map (MessageId.to_string uuid) e.correlation.correlation_id)
            (insert_some (codes "partitionkey") e.partition_key (
              insert_some (codes "dataschema") e.data_schema
                (insert_some (codes "subject") e.subject m))))))

  unfoldable pub to_attributes : Envelope → Attributes
  to_attributes e =
      insert_all (Extensions.iter e.extensions) (optional_attributes e (required_attributes e))

  unfoldable pub from_attributes : Attributes → List ℕ → Result EnvelopeError Envelope
  from_attributes m0 body = do
    (specversion, m1) ← required (codes "specversion") m0
    check_specversion specversion
    (id_text, m2) ← required (codes "id") m1
    id ← MessageId.from_str uuid id_text
    (source_text, m3) ← required (codes "source") m2
    source ← Source.new source_text
    (type_text, m4) ← required (codes "type") m3
    message_type ← MessageType.new type_text
    (time_text, m5) ← required (codes "time") m4
    time ← Timestamp.from_str time_text
    (content_text, m6) ← required (codes "datacontenttype") m5
    content_type ← ContentType.new content_text
    let (subject, m7) = take_out (codes "subject") m6
    let (data_schema, m8) = take_out (codes "dataschema") m7
    let (partition_key, m9) = take_out (codes "partitionkey") m8
    (correlation_id, m10) ← optional_id (codes "correlationid") m9
    (causation_id, m11) ← optional_id (codes "causationid") m10
    let (tracestate, m12) = take_out (codes "tracestate") m11
    let (traceparent, m13) = take_out (codes "traceparent") m12
    extensions ← read_extensions m13 Extensions.new
    ok (record {
      id = id;
      message_type = message_type;
      source = source;
      time = time;
      subject = subject;
      content_type = content_type;
      data_schema = data_schema;
      partition_key = partition_key;
      correlation = record { correlation_id = correlation_id; causation_id = causation_id };
      trace = Option.map (λ p. record { traceparent = p; tracestate = tracestate }) traceparent;
      extensions = extensions;
      body = body;
    })
