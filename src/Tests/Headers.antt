-- ===== src/Tests/Headers.antt =====
-- Header maps as lists in which the latest value of a name counts, and a message type's grammar.
use sisa_messaging_rs.Prelude.{
  Bool, true, not, ◌||◌, ◌==◌, ◌-◌, ◌^◌, ◌≤◌, ◌≡◌, refl, ◌∙◌, ◌↔◌, List, [], ◌∷◌, some, ok, arith,
  min, Bool-cases, inl, inr, if◌then◌else◌,
}
use sisa_messaging_rs.Prelude.Lists.{length, All, all_of}
use sisa_messaging_rs.Prelude.Text.{Text, codes, text_eq}
use sisa_messaging_rs.Prelude.Maps
use sisa_messaging_rs.Prelude.Maps.{Map}
use sisa_messaging_rs.Prelude.Maps.Laws.{get-remove, text_eq_refl}
use sisa_messaging_rs.Core.MessageType.{check_message_type}
use sisa_messaging_rs.Core.MessageType.Grammar.{IsLevels}
use sisa_messaging_rs.Core.MessageType.Grammar.Accepted.{check_message_type_iff}
use sisa_messaging_rs.Core.Envelope.Attributes.{
  to_attributes, insert_some, insert_all, required_attributes, optional_attributes,
}
use sisa_messaging_rs.Core.MessageId
use sisa_messaging_rs.Core.Time.Timestamp
use sisa_messaging_rs.Core.Time.Date
use sisa_messaging_rs.Core.Time.Digits
use sisa_messaging_rs.Core.Time.Calendar
use sisa_messaging_rs.Prelude.Int
use sisa_messaging_rs.Nats.{HeaderMaps, headers, read}
use sisa_messaging_rs.Nats.Headers.{IsLine, IsUnique, HeaderLaws}
use sisa_messaging_rs.Nats.Headers.RoundTrip.{read-headers}
use sisa_messaging_rs.Tests.Sample.{uuid, order}
use sisa_messaging_rs.Tests.Envelopes.{order-IsReadable}

abbrev Headers : Type 0
Headers = List (Text × List Text)

abbrev latest : Headers → Headers
latest [] = []
latest ((n, vs) ∷ h) = (n, vs) ∷ Maps.remove n (latest h)

remove-IsUnique : (k : Text) (h : Headers) → IsUnique h → IsUnique (Maps.remove k h)
unfolding Maps.remove
remove-IsUnique k [] u = tt
remove-IsUnique k ((n, vs) ∷ h) (gone, u) =
    let rest = remove-IsUnique k h u in
    elim (Bool-cases (text_eq n k)) [
      | inl e ↦ rw e rest
      | inr e ↦ rw e (get-remove k n h ∙ ground (arith, gone), rest)
    ]

latest-IsUnique : (h : Headers) → IsUnique (latest h)
latest-IsUnique [] = tt
latest-IsUnique ((n, vs) ∷ h) = (
  (rw (get-remove n n (latest h), text_eq_refl n) refl),
  remove-IsUnique n (latest h) (latest-IsUnique h),
)

abbrev maps : HeaderMaps Headers
maps = record {
  new = [];
  insert = λ k v h. (k, v ∷ []) ∷ h;
  append = λ k v h. (k, v ∷ []) ∷ h;
  iter = latest;
  parse_value = λ v. ok v;
}

iter-insert :
    (k v n : Text) (h : Headers)
    → Maps.get n (latest ((k, v ∷ []) ∷ h))
      ≡ (if text_eq k n then some (v ∷ []) else Maps.get n (latest h))
unfolding Maps.get
iter-insert k v n h = elim (Bool-cases (text_eq k n)) [
  | inl e ↦ rw e refl
  | inr e ↦ rw (e, get-remove k n (latest h), e) refl
]

laws : HeaderLaws maps
laws = record {
  iter-new = refl;
  iter-IsUnique = latest-IsUnique;
  iter-insert = iter-insert;
  parse_value-line = λ v l. refl;
}

abbrev is_line : Text → Bool
is_line = all_of (λ c. not ((c == 13) || (c == 10)))

is_line-IsLine : (s : Text) → is_line s ≡ true → IsLine s
is_line-IsLine [] h = tt
is_line-IsLine (c ∷ s) h = ((ground arith, ground arith), is_line-IsLine s (ground arith))

is_line-All : (a : Map Text) → all_of (λ p. is_line p.1) a ≡ true → All (λ p. IsLine p.1) a
is_line-All [] h = tt
is_line-All ((n, v) ∷ a) h = (is_line-IsLine v (ground arith), is_line-All a (ground arith))

order_lines : all_of (λ p. is_line p.1) (to_attributes uuid (order 7)) ≡ true
unfolding to_attributes required_attributes optional_attributes insert_all insert_some
    MessageId.to_string Timestamp.to_string Maps.insert Date.civil_text Digits.padded_ℤ
    Calendar.date_from_days Int.◌+ℤ◌ Int.◌*ℕ◌ Int.div_euclid Int.rem_euclid Calendar.year_of_era
    Calendar.calendar_month Calendar.month_from_march Calendar.days_before_year
order_lines = refl

order-lines : All (λ p. IsLine p.1) (to_attributes uuid (order 7))
order-lines = is_line-All (to_attributes uuid (order 7)) order_lines

read-headers_example :
    (h : Headers) × (headers maps uuid (order 7) ≡ ok h)
    × (read maps uuid (λ x. []) (record { headers = some h; payload = []; delivered = ok 2 })
        ≡ ok (order 7, min 2 (2 ^ 32 - 1)))
read-headers_example =
    read-headers maps laws uuid (order 7) (λ x. []) 2 order-IsReadable order-lines

check_message_type_iff_example :
    (check_message_type (codes "order_placed.v1") ≡ ok tt)
    ↔ (IsLevels (codes "order_placed.v1") × (length (codes "order_placed.v1") ≤ 249))
check_message_type_iff_example = check_message_type_iff (codes "order_placed.v1")
