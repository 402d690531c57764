-- ===== src/Nats/Headers/Names.antt =====
-- crates/nats/src/transport.rs: the attributes' names are in lowercase, so a header keeps them.
use sisa_messaging_rs.Prelude.{
  ℕ, ◌+◌, ◌≡◌, refl, true, ◌&&◌, List, [], ◌∷◌, ◌++◌, Option, none, some, arith, ltb, leb,
  Bool-cases, inl, inr, if◌then◌else◌,
}
use sisa_messaging_rs.Prelude.Lists.{All, all_of}
use sisa_messaging_rs.Prelude.Text.{Text, bytes, utf8}
use sisa_messaging_rs.Prelude.Maps
use sisa_messaging_rs.Prelude.Maps.{Map}
use sisa_messaging_rs.Prelude.Maps.Laws.{All-insert}
use sisa_messaging_rs.Core.MessageId.{UuidText}
use sisa_messaging_rs.Core.Envelope.Extensions.{is_name_byte, check_name}
use sisa_messaging_rs.Core.Envelope.Extensions.Valid.{IsName, IsValid}
use sisa_messaging_rs.Core.Envelope.Defs.{Envelope}
use sisa_messaging_rs.Core.Envelope.Attributes.{
  Attributes, insert_some, insert_all, required_attributes, optional_attributes, to_attributes,
}
use sisa_messaging_rs.Core.Envelope.Attributes.Fields.{Field, fields, insert_fields, no_attributes}
use sisa_messaging_rs.Core.Envelope.Attributes.Written.{base_fields}
use sisa_messaging_rs.Nats.Headers.Collected.{IsLower}

utf8-name :
    (c : ℕ) (rest : List ℕ)
    → all_of is_name_byte (utf8 c ++ rest) ≡ true
    → ((if leb 65 c && leb c 90 then c + 32 else c) ≡ c) × (all_of is_name_byte rest ≡ true)
utf8-name c rest h = elim (Bool-cases (ltb c 0x80)) [ inl e ↦ ground arith | inr e ↦ ground arith ]

name_bytes-IsLower : (s : Text) → all_of is_name_byte (bytes s) ≡ true → IsLower s
unfolding bytes
name_bytes-IsLower [] h = refl
name_bytes-IsLower (c ∷ s) h =
    let (e, rest) = utf8-name c (bytes s) h in rw (e, name_bytes-IsLower s rest) refl

name-IsLower : (s v : Text) → IsName (s, v) → IsLower s
unfolding check_name
name-IsLower s v h = name_bytes-IsLower s (ground arith)

abbrev pub AreLower : Attributes → Type 0
AreLower = All (λ p. IsLower p.0)

insert-AreLower :
    (k v : Text) (m : Attributes) → IsLower k → AreLower m → AreLower (Maps.insert k v m)
insert-AreLower k v m l a = All-insert (λ p. IsLower p.0) k v m l a

insert_all-AreLower :
    (xs : List (Text × Text)) (m : Attributes)
    → All IsName xs
    → AreLower m
    → AreLower (insert_all xs m)
unfolding insert_all
insert_all-AreLower [] m n a = a
insert_all-AreLower ((k, v) ∷ xs) m (n, ns) a =
    insert_all-AreLower xs (Maps.insert k v m) ns (insert-AreLower k v m (name-IsLower k v n) a)

insert_some-AreLower :
    (k : Text) (o : Option Text) (m : Attributes)
    → IsLower k
    → AreLower m
    → AreLower (insert_some k o m)
unfolding insert_some
insert_some-AreLower k none m l a = a
insert_some-AreLower k (some v) m l a = insert-AreLower k v m l a

insert_fields-AreLower :
    (fs : List Field) (m : Attributes)
    → All (λ f. IsLower f.0) fs
    → AreLower m
    → AreLower (insert_fields fs m)
insert_fields-AreLower [] m l a = a
insert_fields-AreLower (f ∷ fs) m (l, ls) a =
    insert_fields-AreLower fs (insert_some f.0 f.1 m) ls (insert_some-AreLower f.0 f.1 m l a)

fields-AreLower : (uuid : UuidText) (e : Envelope) → All (λ f. IsLower f.0) (fields uuid e)
fields-AreLower uuid e = (
  refl,
  (
    refl,
    (refl, (refl, (refl, (refl, (refl, (refl, (refl, (refl, (refl, (refl, (refl, tt))))))))))),
  ),
)

pub to_attributes-AreLower :
    (uuid : UuidText) (e : Envelope) → IsValid e.extensions → AreLower (to_attributes uuid e)
unfolding to_attributes
to_attributes-AreLower uuid e valid =
    insert_all-AreLower e.extensions.entries
      (optional_attributes uuid e (required_attributes uuid e)) valid.names
      (rw (base_fields uuid e)
        (insert_fields-AreLower (fields uuid e) no_attributes (fields-AreLower uuid e) tt))
