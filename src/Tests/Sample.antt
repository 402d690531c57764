-- ===== src/Tests/Sample.antt =====
-- An envelope, and the parameters of the model as concrete functions.
use sisa_messaging_rs.Prelude.{ℕ, refl, [], ◌∷◌, Option, none, some}
use sisa_messaging_rs.Prelude.Int.{pos}
use sisa_messaging_rs.Prelude.Text.{Text, codes}
use sisa_messaging_rs.Core.MessageId.{UuidText}
use sisa_messaging_rs.Core.Envelope.Defs.{Envelope}
use sisa_messaging_rs.Runtime.Endpoint.{Conversions}

-- A UUID's text as one character.
abbrev parse_one : Text → Option ℕ
parse_one [] = none
parse_one (u ∷ s) = some u

abbrev pub uuid : UuidText
uuid = record { parse_str = parse_one; hyphenated = λ u. u ∷ []; parse_str-hyphenated = λ u. refl }

abbrev pub conversions : Conversions
conversions = record {
  from_store = λ e. record { error_type = codes "store"; message = [] };
  from_transport = λ e. record { error_type = codes "transport"; message = [] };
  from_codec = λ e. record { error_type = codes "codec"; message = [] };
  codec_error_name = codes "codec";
}

abbrev pub order : ℕ → Envelope
order id = record {
  id = record { uuid = id };
  message_type = record { value = codes "order_placed.v1" };
  source = record { value = codes "shop" };
  time = record { seconds = pos 1_700_000_000; nanos = 0 };
  subject = some (codes "42");
  content_type = record { value = codes "application/json" };
  data_schema = none;
  partition_key = none;
  correlation = record { correlation_id = none; causation_id = none };
  trace = none;
  extensions = record { entries = (codes "tenant", codes "a") ∷ [] };
  body = [];
}
