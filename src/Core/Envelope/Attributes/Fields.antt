-- ===== src/Core/Envelope/Attributes/Fields.antt =====
-- crates/core/src/envelope.rs: which attribute `to_attributes` writes for each field, as a table.
use sisa_messaging_rs.Prelude.{
  ◌≡◌, refl, Bool, true, false, ◌&&◌, not, List, [], ◌∷◌, Option, none, some, arith, ◌∙◌,
}
use sisa_messaging_rs.Prelude.Lists.{All, any_of}
use sisa_messaging_rs.Prelude.Text.{Text, codes, text_eq}
use sisa_messaging_rs.Prelude.Maps
use sisa_messaging_rs.Prelude.Maps.Laws.{get-insert, text_eq_refl}
use sisa_messaging_rs.Core.MessageId
use sisa_messaging_rs.Core.MessageId.{UuidText}
use sisa_messaging_rs.Core.Time.Timestamp
use sisa_messaging_rs.Core.Envelope.Defs.{Envelope}
use sisa_messaging_rs.Core.Envelope.Attributes.{
  Attributes, insert_some, traceparent_of, tracestate_of,
}
use mathlib.Core.Option

abbrev pub Field : Type 0
Field = Text × Option Text

-- The table: each attribute's name, and its value if the envelope has one.
abbrev pub fields : UuidText → Envelope → List Field
fields uuid e =
    (codes "specversion", some (codes "1.0"))
    ∷ ((codes "id", some (MessageId.to_string uuid e.id))
        ∷ ((codes "source", some e.source.value)
            ∷ ((codes "type", some e.message_type.value)
                ∷ ((codes "time", some (Timestamp.to_string e.time))
                    ∷ ((codes "datacontenttype", some e.content_type.value)
                        ∷ ((codes "subject", e.subject)
                            ∷ ((codes "dataschema", e.data_schema)
                                ∷ ((codes "partitionkey", e.partition_key)
                                    ∷ ((
                                      codes "correlationid",
                                      Option.map (MessageId.to_string uuid)
                                          e.correlation.correlation_id,
                                    )
                                        ∷ ((
                                          codes "causationid",
                                          Option.map (MessageId.to_string uuid)
                                              e.correlation.causation_id,
                                        )
                                            ∷ ((
                                              codes "traceparent",
                                              Option.map traceparent_of e.trace,
                                            )
                                                ∷ ((codes "tracestate", tracestate_of e.trace)
                                                    ∷ []))))))))))))

abbrev pub insert_fields : List Field → Attributes → Attributes
insert_fields [] m = m
insert_fields (f ∷ fs) m = insert_fields fs (insert_some f.0 f.1 m)

abbrev pub names_has : List Field → Text → Bool
names_has fs k = any_of (λ f. text_eq f.0 k) fs

abbrev pub are_distinct : List Field → Bool
are_distinct [] = true
are_distinct (f ∷ fs) = not (names_has fs f.0) && are_distinct fs

insert_some-other :
    (k j : Text) (o : Option Text) (m : Attributes)
    → text_eq k j ≡ false
    → Maps.get j (insert_some k o m) ≡ Maps.get j m
unfolding insert_some
insert_some-other k j none m h = refl
insert_some-other k j (some v) m h = rw (get-insert k j v m, h) refl

insert_some-same :
    (k : Text) (o : Option Text) (m : Attributes)
    → Maps.get k m ≡ none
    → Maps.get k (insert_some k o m) ≡ o
unfolding insert_some
insert_some-same k none m h = h
insert_some-same k (some v) m h = rw (get-insert k k v m, text_eq_refl k) refl

pub insert_fields-other :
    (fs : List Field) (k : Text) (m : Attributes)
    → names_has fs k ≡ false
    → Maps.get k (insert_fields fs m) ≡ Maps.get k m
insert_fields-other [] k m h = refl
insert_fields-other (f ∷ fs) k m h =
    insert_fields-other fs k (insert_some f.0 f.1 m) (ground arith)
    ∙ insert_some-other f.0 k f.1 m (ground arith)

text_eq_sym : (s t : Text) → text_eq s t ≡ text_eq t s
text_eq_sym [] [] = refl
text_eq_sym [] (d ∷ t) = refl
text_eq_sym (c ∷ s) [] = refl
text_eq_sym (c ∷ s) (d ∷ t) = ground (arith, text_eq_sym s t)

-- Fields that a map does not have yet stay so when another one is inserted.
still_none :
    (fs : List Field) (k : Text) (o : Option Text) (m : Attributes)
    → names_has fs k ≡ false
    → All (λ f. Maps.get f.0 m ≡ none) fs
    → All (λ f. Maps.get f.0 (insert_some k o m) ≡ none) fs
still_none [] k o m h a = tt
still_none (f ∷ fs) k o m h a = (
  insert_some-other k f.0 o m (rw (text_eq_sym k f.0) (ground arith)) ∙ a.0,
  still_none fs k o m (ground arith) a.1,
)

pub insert_fields-get :
    (fs : List Field) (m : Attributes)
    → are_distinct fs ≡ true
    → All (λ f. Maps.get f.0 m ≡ none) fs
    → All (λ f. Maps.get f.0 (insert_fields fs m) ≡ f.1) fs
insert_fields-get [] m d a = tt
insert_fields-get (f ∷ fs) m d a =
    let h : names_has fs f.0 ≡ false = ground arith in
    (
      insert_fields-other fs f.0 (insert_some f.0 f.1 m) h ∙ insert_some-same f.0 f.1 m a.0,
      insert_fields-get fs (insert_some f.0 f.1 m) (ground arith) (still_none fs f.0 f.1 m h a.1),
    )

abbrev pub no_attributes : Attributes
no_attributes = []

pub empty_none : (fs : List Field) → All (λ f. Maps.get f.0 no_attributes ≡ none) fs
unfolding Maps.get
empty_none [] = tt
empty_none (f ∷ fs) = (refl, empty_none fs)
