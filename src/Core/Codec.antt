-- ===== src/Core/Codec.antt =====
-- crates/core/src/codec.rs: the JSON codec. `serde_json` is a parameter: how a message type is
-- written to bytes and read back, with the category and the place of a read error.
use sisa_messaging_rs.Prelude.{
  ℕ, Bool, ◌&&◌, List, [], ◌∷◌, ◌++◌, ◌+◌, Result, leb, map_err, if◌then◌else◌,
}
use sisa_messaging_rs.Prelude.Text.{Text, codes, text_eq, is_whitespace}
use sisa_messaging_rs.Core.MessageType.{split}
use sisa_messaging_rs.Core.Time.Digits.{decimal}
use sisa_messaging_rs.Core.Envelope.ContentType.{ContentType}
use mathlib.Core.List.{reverse, map}

-- The message type, the content type and the reason.
pub data CodecError : Type 0 where
  encode_error decode_error : Text → Text → Text → CodecError

-- `str::trim`.
unfoldable pub trim_start : Text → Text
trim_start [] = []
trim_start (c ∷ s) = let rest = trim_start s in if is_whitespace c then rest else c ∷ s

unfoldable pub trim : Text → Text
unfolding trim_start
trim s = reverse (trim_start (reverse (trim_start s)))

abbrev first_part : List Text → Text
first_part [] = []
first_part (p ∷ ps) = p

unfoldable pub essence : Text → Text
essence content_type = trim (first_part (split b';' content_type))

abbrev pub to_ascii_lowercase : ℕ → ℕ
to_ascii_lowercase c = if leb b'A' c && leb c b'Z' then c + 32 else c

-- `str::eq_ignore_ascii_case`.
unfoldable pub eq_ignore_ascii_case : Text → Text → Bool
eq_ignore_ascii_case s t = text_eq (map to_ascii_lowercase s) (map to_ascii_lowercase t)

abbrev pub json_content_type : Text
json_content_type = codes "application/json"

unfoldable pub can_decode : ContentType → Bool
unfolding essence eq_ignore_ascii_case
can_decode content_type = eq_ignore_ascii_case (essence content_type.value) json_content_type

pub data Category : Type 0 where
  io syntax mismatch eof : Category

pub record JsonError : Type 0 where
  pub category : Category
  pub line : ℕ
  pub column : ℕ

-- `serde_json::to_vec` and `from_slice` at a message type, and the type's `Message::TYPE`.
pub record Message (Msg : Type 0) : Type 0 where
  pub type_name : Text
  pub to_vec : Msg → Result Text (List ℕ)
  pub from_slice : List ℕ → Result JsonError Msg

abbrev pub what : Category → Text
what io = codes "invalid JSON"
what syntax = codes "invalid JSON"
what mismatch = codes "JSON that doesn't match the message"
what eof = codes "JSON that ends early"

unfoldable pub decode_reason : JsonError → Text
decode_reason e =
    what e.category
    ++ (codes " at line " ++ (decimal e.line ++ (codes ", column " ++ decimal e.column)))

module _ {Msg : Type 0} (message : Message Msg) where
  unfoldable pub encode : Msg → Result CodecError (List ℕ)
  encode m = map_err (encode_error message.type_name json_content_type) (message.to_vec m)

  unfoldable pub decode : List ℕ → Result CodecError Msg
  decode bs =
      map_err (λ e. decode_error message.type_name json_content_type (decode_reason e))
        (message.from_slice bs)
