-- ===== src/Core/Envelope/Attributes/RoundTrip.antt =====
-- crates/core/src/envelope.rs: `from_attributes` reads back what `to_attributes` writes.
use sisa_messaging_rs.Core.Time.Timestamp.RoundTrip.{IsInstant, from_str-to_string}
use sisa_messaging_rs.Prelude.{
  ◌≡◌, refl, false, List, [], Option, some, ok, Bool-cases, inl, inr, sym, ◌∙◌, ◌>>=◌,
}
use sisa_messaging_rs.Prelude.Text.{Text, codes}
use sisa_messaging_rs.Prelude.Maps
use sisa_messaging_rs.Prelude.Maps.{Map, IsSorted}
use sisa_messaging_rs.Prelude.Maps.Laws.{Map-ext}
use sisa_messaging_rs.Core.MessageType
use sisa_messaging_rs.Core.MessageId
use sisa_messaging_rs.Core.MessageId.{MessageId, UuidText}
use sisa_messaging_rs.Core.Time.Timestamp
use sisa_messaging_rs.Core.Envelope.Source
use sisa_messaging_rs.Core.Envelope.ContentType
use sisa_messaging_rs.Core.Envelope.Extensions.Valid.{IsValid}
use sisa_messaging_rs.Core.Envelope.Defs.{Envelope}
use sisa_messaging_rs.Core.Envelope.Attributes.{
  Attributes, required_attributes, optional_attributes, to_attributes, from_attributes,
  traceparent_of, tracestate_of,
}
use sisa_messaging_rs.Core.Envelope.Attributes.Fields.{fields, no_attributes, insert_fields-other}
use sisa_messaging_rs.Core.Envelope.Attributes.Written.{
  insert_all-get, names-reserved, base_fields, to_attributes-fields,
}
use mathlib.Core.Option
use sisa_messaging_rs.Core.Envelope.Attributes.Stripped.{
  stripped, has, get-stripped, get-stripped-none, stripped-IsSorted, removed1, removed2, removed3,
  removed4, removed5, removed6, removed7, removed8, removed9, removed10, removed11, removed12,
  removed13, has-reserved, removed-reserved, names-has, fields-removed,
}
use sisa_messaging_rs.Core.Envelope.Attributes.Reading.{
  insert_all-IsSorted, insert_fields-IsSorted, read_extensions_lem, required_lem, optional_id_lem,
  get_absent, id_lem, trace_lem,
}

-- An envelope whose parts are as their constructors check them.
pub record IsReadable (e : Envelope) : Type 0 where
  pub extensions : IsValid e.extensions
  pub source : Source.new e.source.value ≡ ok e.source
  pub message_type : MessageType.new e.message_type.value ≡ ok e.message_type
  pub content_type : ContentType.new e.content_type.value ≡ ok e.content_type
  pub time : IsInstant e.time

module _ (uuid : UuidText) (e : Envelope) (readable : IsReadable e) where
  abbrev written : Attributes
  written = to_attributes uuid e

  pub written-IsSorted : IsSorted written
  unfolding to_attributes
  written-IsSorted =
      insert_all-IsSorted e.extensions.entries
        (optional_attributes uuid e (required_attributes uuid e))
        (rw (base_fields uuid e) (insert_fields-IsSorted (fields uuid e) no_attributes tt))

  left_get : (k : Text) → Maps.get k (stripped removed13 written) ≡ Maps.get k e.extensions.entries
  unfolding to_attributes Maps.get
  left_get k = elim (Bool-cases (has removed13 k)) [
    | inl h ↦
        get-stripped-none removed13 k written h
        ∙ sym (
            get_absent e.extensions.entries k (
              names-reserved e.extensions.entries k readable.extensions.names
                (has-reserved removed13 k removed-reserved h)))
    | inr h ↦
        get-stripped removed13 k written h
        ∙ insert_all-get e.extensions.entries k
            (optional_attributes uuid e (required_attributes uuid e)) readable.extensions.sorted
            (rw (base_fields uuid e) (
              insert_fields-other (fields uuid e) k no_attributes
                (names-has removed13 (fields uuid e) k (fields-removed uuid e) h)))
  ]

  left_lem : stripped removed13 written ≡ e.extensions.entries
  left_lem =
      Map-ext (stripped removed13 written) e.extensions.entries
        (stripped-IsSorted removed13 written written-IsSorted) readable.extensions.sorted left_get

  read :
      (ns : List Text) (k : Text) (o : Option Text)
      → has ns k ≡ false
      → Maps.get k written ≡ o
      → Maps.get k (stripped ns written) ≡ o
  read ns k o h eq = get-stripped ns k written h ∙ eq

  -- The attributes that an envelope writes are read back as the same envelope, with the same body,
  -- if each of its parts passes its own check.
  pub from_attributes-to_attributes : from_attributes uuid (to_attributes uuid e) e.body ≡ ok e
  unfolding from_attributes
  from_attributes-to_attributes =
      let a = to_attributes-fields uuid e readable.extensions in
      rw
        (
          ◌>>=◌,
          required_lem (codes "specversion") (codes "1.0") (stripped [] written)
              (read [] (codes "specversion") (some (codes "1.0")) refl a.0),
          required_lem (codes "id") (MessageId.to_string uuid e.id) (stripped removed1 written)
              (read removed1 (codes "id") (some (MessageId.to_string uuid e.id)) refl a.1.0),
          id_lem uuid e.id,
          required_lem (codes "source") e.source.value (stripped removed2 written)
              (read removed2 (codes "source") (some e.source.value) refl a.1.1.0),
          readable.source,
          required_lem (codes "type") e.message_type.value (stripped removed3 written)
              (read removed3 (codes "type") (some e.message_type.value) refl a.1.1.1.0),
          readable.message_type,
          required_lem (codes "time") (Timestamp.to_string e.time) (stripped removed4 written)
              (read removed4 (codes "time") (some (Timestamp.to_string e.time)) refl a.1.1.1.1.0),
          from_str-to_string e.time readable.time,
          required_lem (codes "datacontenttype") e.content_type.value (stripped removed5 written) (
              read removed5 (codes "datacontenttype") (some e.content_type.value) refl
                a.1.1.1.1.1.0),
          readable.content_type,
          optional_id_lem uuid (codes "correlationid") e.correlation.correlation_id
              (stripped removed9 written)
              (read removed9 (codes "correlationid")
                (Option.map (MessageId.to_string uuid) e.correlation.correlation_id) refl
                a.1.1.1.1.1.1.1.1.1.0),
          optional_id_lem uuid (codes "causationid") e.correlation.causation_id
              (stripped removed10 written)
              (read removed10 (codes "causationid")
                (Option.map (MessageId.to_string uuid) e.correlation.causation_id) refl
                a.1.1.1.1.1.1.1.1.1.1.0),
          (read removed6 (codes "subject") e.subject refl a.1.1.1.1.1.1.0),
          (read removed7 (codes "dataschema") e.data_schema refl a.1.1.1.1.1.1.1.0),
          (read removed8 (codes "partitionkey") e.partition_key refl a.1.1.1.1.1.1.1.1.0),
          (read removed11 (codes "tracestate") (tracestate_of e.trace) refl
              a.1.1.1.1.1.1.1.1.1.1.1.1.0),
          (read removed12 (codes "traceparent") (Option.map traceparent_of e.trace) refl
              a.1.1.1.1.1.1.1.1.1.1.1.0),
          left_lem,
          read_extensions_lem e.extensions readable.extensions,
          trace_lem e.trace,
        )
        refl
