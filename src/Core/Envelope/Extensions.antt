-- ===== src/Core/Envelope/Extensions.antt =====
-- crates/core/src/envelope.rs: the attributes without a field of their own.
pub mod Names
pub mod Valid
use sisa_messaging_rs.Prelude.{
  ℕ, Bool, true, false, not, ◌&&◌, ◌||◌, List, [], ◌∷◌, Option, none, some, Result, ok, err,
  map_err, ltb, if◌then◌else◌,
}
use sisa_messaging_rs.Prelude.Lists.{length, all_of, any_of}
use sisa_messaging_rs.Prelude.Text.{Text, codes, bytes, text_eq, is_digit, is_lowercase}
use sisa_messaging_rs.Prelude.Maps
use sisa_messaging_rs.Prelude.Maps.{Map}
use sisa_messaging_rs.Core.Error.{EnvelopeError, invalid}
use sisa_messaging_rs.Core.MessageType.{is_empty}

-- `RESERVED`.
unfoldable pub reserved : List Text
reserved =
    codes "specversion"
    ∷ (codes "id"
        ∷ (codes "source"
            ∷ (codes "type"
                ∷ (codes "time"
                    ∷ (codes "datacontenttype"
                        ∷ (codes "subject"
                            ∷ (codes "dataschema"
                                ∷ (codes "partitionkey"
                                    ∷ (codes "traceparent"
                                        ∷ (codes "tracestate"
                                            ∷ (codes "correlationid"
                                                ∷ (codes "causationid"
                                                    ∷ (codes "data" ∷ [])))))))))))))

unfoldable pub is_reserved : Text → Bool
unfolding reserved
is_reserved name = any_of (λ r. text_eq r name) reserved

pub record Extensions : Type 0 where
  pub entries : Map Text

abbrev pub new : Extensions
new = record { entries = [] }

abbrev pub is_name_byte : ℕ → Bool
is_name_byte b = is_lowercase b || is_digit b

-- The three checks of `insert`.
unfoldable pub check_name : Text → Result EnvelopeError (Unit {0})
check_name name =
    if is_empty name || not (all_of is_name_byte (bytes name))
    then err (invalid name "not lowercase letters and digits")
    else if ltb 20 (length (bytes name))
    then err (invalid name "longer than 20 characters")
    else if is_reserved name
    then err (invalid name "has a field of its own in the envelope")
    else ok tt

-- The map afterwards, and the value that was replaced.
unfoldable pub insert : Extensions → Text → Text → Result EnvelopeError (Extensions × Option Text)
insert e name value = elim (check_name name) [
  | ok _ ↦ ok (record { entries = Maps.insert name value e.entries }, Maps.get name e.entries)
  | err error ↦ err error
]

unfoldable pub get : Extensions → Text → Option Text
get e name = Maps.get name e.entries

unfoldable pub remove : Extensions → Text → Extensions × Option Text
remove e name = (record { entries = Maps.remove name e.entries }, Maps.get name e.entries)

abbrev pub iter : Extensions → List (Text × Text)
iter e = e.entries

unfoldable pub len : Extensions → ℕ
len e = length e.entries
