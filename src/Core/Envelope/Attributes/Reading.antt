-- ===== src/Core/Envelope/Attributes/Reading.antt =====
-- crates/core/src/envelope.rs: the steps of `from_attributes` on what `to_attributes` wrote.
use sisa_messaging_rs.Prelude.{
  ◌≡◌, refl, false, List, [], ◌∷◌, Option, none, some, ok, arith, ◌∙◌, ap, ◌>>=◌,
}
use sisa_messaging_rs.Prelude.Lists.{All}
use sisa_messaging_rs.Prelude.Text.{Text}
use sisa_messaging_rs.Prelude.Maps
use sisa_messaging_rs.Prelude.Maps.{Map, IsSorted}
use sisa_messaging_rs.Prelude.Maps.Laws.{insert-IsSorted, Map-ext}
use sisa_messaging_rs.Core.MessageId
use sisa_messaging_rs.Core.MessageId.{MessageId, UuidText}
use sisa_messaging_rs.Core.Envelope.Extensions
use sisa_messaging_rs.Core.Envelope.Extensions.{Extensions}
use sisa_messaging_rs.Core.Envelope.Extensions.Valid.{IsValid, IsName}
use sisa_messaging_rs.Core.Envelope.Defs.{TraceContext}
use sisa_messaging_rs.Core.Envelope.Attributes.{
  Attributes, insert_some, insert_all, required, optional_id, read_extensions, traceparent_of,
  tracestate_of,
}
use sisa_messaging_rs.Core.Envelope.Attributes.Fields.{Field, insert_fields, no_attributes}
use sisa_messaging_rs.Core.Envelope.Attributes.Written.{keys_have, insert_all-get}
use mathlib.Core.Option

pub insert_all-IsSorted :
    (xs : List (Text × Text)) (m : Attributes) → IsSorted m → IsSorted (insert_all xs m)
unfolding insert_all
insert_all-IsSorted [] m s = s
insert_all-IsSorted ((n, v) ∷ xs) m s =
    insert_all-IsSorted xs (Maps.insert n v m) (insert-IsSorted n v m s)

pub insert_fields-IsSorted :
    (fs : List Field) (m : Attributes) → IsSorted m → IsSorted (insert_fields fs m)
unfolding insert_some
insert_fields-IsSorted [] m s = s
insert_fields-IsSorted ((n, none) ∷ fs) m s = insert_fields-IsSorted fs m s
insert_fields-IsSorted ((n, some v) ∷ fs) m s =
    insert_fields-IsSorted fs (Maps.insert n v m) (insert-IsSorted n v m s)

pub insert_all_empty : (xs : Map Text) → IsSorted xs → insert_all xs no_attributes ≡ xs
unfolding Maps.get
insert_all_empty xs s =
    Map-ext (insert_all xs no_attributes) xs (insert_all-IsSorted xs no_attributes tt) s
      (λ k. insert_all-get xs k no_attributes s refl)

read_extensions-insert_all :
    (xs : Map Text) (e : Extensions)
    → All IsName xs
    → read_extensions xs e ≡ ok (record { entries = insert_all xs e.entries })
unfolding read_extensions insert_all Extensions.insert
read_extensions-insert_all [] e a = refl
read_extensions-insert_all ((n, v) ∷ xs) e a =
    rw (a.0, ◌>>=◌)
      (read_extensions-insert_all xs (record { entries = Maps.insert n v e.entries }) a.1)

pub read_extensions_lem :
    (e : Extensions) → IsValid e → read_extensions e.entries Extensions.new ≡ ok e
read_extensions_lem e valid =
    read_extensions-insert_all e.entries Extensions.new valid.names
    ∙ ap (λ m. ok (record { entries = m })) (insert_all_empty e.entries valid.sorted)

pub required_lem :
    (k v : Text) (m : Attributes) → Maps.get k m ≡ some v → required k m ≡ ok (v, Maps.remove k m)
unfolding required
required_lem k v m h = rw (required, h) refl

pub optional_id_lem :
    (uuid : UuidText) (k : Text) (id : Option MessageId) (m : Attributes)
    → Maps.get k m ≡ Option.map (MessageId.to_string uuid) id
    → optional_id uuid k m ≡ ok (id, Maps.remove k m)
unfolding optional_id MessageId.to_string MessageId.from_str
optional_id_lem uuid k none m h = rw (optional_id, h) refl
optional_id_lem uuid k (some id) m h =
    rw (optional_id, h, MessageId.from_str, uuid.parse_str-hyphenated id.uuid) refl

pub get_absent : (xs : Map Text) (k : Text) → keys_have xs k ≡ false → Maps.get k xs ≡ none
unfolding Maps.get
get_absent [] k h = refl
get_absent ((n, v) ∷ xs) k h = ground (arith, get_absent xs k)

pub id_lem :
    (uuid : UuidText) (id : MessageId)
    → MessageId.from_str uuid (MessageId.to_string uuid id) ≡ ok id
unfolding MessageId.from_str MessageId.to_string
id_lem uuid id = rw (uuid.parse_str-hyphenated id.uuid) refl

pub trace_lem :
    (t : Option TraceContext)
    → Option.map
        (λ p. record { traceparent = p; tracestate = tracestate_of t })
        (Option.map traceparent_of t)
      ≡ t
trace_lem none = refl
trace_lem (some t) = refl
