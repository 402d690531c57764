-- ===== src/Postgres/Outbox/RoundTrip.antt =====
-- crates/postgres/src/outbox.rs: `record` reads back the envelope of the row that `insert` writes.
use sisa_messaging_rs.Prelude.{
  ◌≡◌, refl, ◌∙◌, sym, ap, ◌⊎◌, inl, inr, Bool, true, false, ◌||◌, List, [], ◌∷◌, none, some, ok,
  map, arith, Bool-cases, subst, ◌>>=◌, ℕ,
}
use sisa_messaging_rs.Prelude.Lists.{All, any_of}
use sisa_messaging_rs.Prelude.Text.{Text, codes, text_eq, text_eq_iff}
use sisa_messaging_rs.Prelude.Maps
use sisa_messaging_rs.Prelude.Maps.{Map, IsSorted}
use sisa_messaging_rs.Prelude.Maps.Laws.{get-insert, get-remove, remove-IsSorted, Map-ext}
use sisa_messaging_rs.Core.MessageId
use sisa_messaging_rs.Core.MessageId.{UuidText}
use sisa_messaging_rs.Core.Time.Timestamp
use sisa_messaging_rs.Core.Time.Timestamp.{Timestamp}
use sisa_messaging_rs.Core.Envelope.Defs.{Envelope}
use sisa_messaging_rs.Core.Envelope.Attributes.{Attributes, insert_some, insert_all, to_attributes}
use sisa_messaging_rs.Core.Envelope.Attributes.Fields.{Field, insert_fields, names_has}
use sisa_messaging_rs.Core.Envelope.Attributes.Written.{to_attributes-fields}
use sisa_messaging_rs.Core.Envelope.Attributes.RoundTrip.{
  IsReadable, written-IsSorted, from_attributes-to_attributes,
}
use sisa_messaging_rs.Core.Envelope.Attributes.Reading.{insert_all_empty, insert_fields-IsSorted}
use sisa_messaging_rs.Postgres.Outbox.{
  column_attributes, remove_all, attributes, string, Texts, read_strings, insert_columns, timestamp,
  record_of, row_of,
}

-- The attributes with a column, and their values in a row.
abbrev columns : UuidText → Envelope → List Field
columns uuid e =
    (codes "specversion", some (codes "1.0"))
    ∷ ((codes "id", some (MessageId.to_string uuid e.id))
        ∷ ((codes "type", some e.message_type.value)
            ∷ ((codes "source", some e.source.value)
                ∷ ((codes "datacontenttype", some e.content_type.value)
                    ∷ ((codes "subject", e.subject)
                        ∷ ((codes "partitionkey", e.partition_key)
                            ∷ ((codes "dataschema", e.data_schema) ∷ [])))))))

remove_all-IsSorted : (ns : List Text) (m : Attributes) → IsSorted m → IsSorted (remove_all ns m)
unfolding remove_all
remove_all-IsSorted [] m s = s
remove_all-IsSorted (n ∷ ns) m s = remove_all-IsSorted ns (Maps.remove n m) (remove-IsSorted n m s)

remove_all-none :
    (ns : List Text) (k : Text) (m : Attributes)
    → Maps.get k m ≡ none
    → Maps.get k (remove_all ns m) ≡ none
unfolding remove_all
remove_all-none [] k m h = h
remove_all-none (n ∷ ns) k m h =
    remove_all-none ns k (Maps.remove n m) (rw (get-remove n k m) (ground arith))

-- A name is removed, or its value is kept.
get-remove_all :
    (ns : List Text) (k : Text) (m : Attributes)
    → (Maps.get k (remove_all ns m) ≡ Maps.get k m)
      ⊎ ((any_of (λ n. text_eq n k) ns ≡ true) × (Maps.get k (remove_all ns m) ≡ none))
unfolding remove_all
get-remove_all [] k m = inl refl
get-remove_all (n ∷ ns) k m = elim (Bool-cases (text_eq n k)) [
  | inl e ↦ inr (rw e refl, remove_all-none ns k (Maps.remove n m) (rw (get-remove n k m, e) refl))
  | inr e ↦
      let kept : Maps.get k (Maps.remove n m) ≡ Maps.get k m = rw (get-remove n k m, e) refl in
      elim (get-remove_all ns k (Maps.remove n m)) [
        | inl h ↦ inl (h ∙ kept)
        | inr h ↦ inr (rw e h.0, h.1)
      ]
]

-- Inserting the values that `w` has for the removed names brings its lookups back.
insert_fields_restore :
    (fs : List Field) (k : Text) (m w : Attributes)
    → All (λ f. Maps.get f.0 w ≡ f.1) fs
    → (Maps.get k m ≡ Maps.get k w) ⊎ ((names_has fs k ≡ true) × (Maps.get k m ≡ none))
    → Maps.get k (insert_fields fs m) ≡ Maps.get k w
unfolding insert_some
insert_fields_restore [] k m w a (inl h) = h
insert_fields_restore [] k m w a (inr h) = absurd (cc h.0)
insert_fields_restore ((n, none) ∷ fs) k m w a (inl h) = insert_fields_restore fs k m w a.1 (inl h)
insert_fields_restore ((n, none) ∷ fs) k m w a (inr h) = elim (Bool-cases (text_eq n k)) [
  | inl e ↦
      insert_fields_restore fs k m w a.1
        (inl (h.1 ∙ sym (subst (λ t. Maps.get t w ≡ none) ((text_eq_iff n k).0 e) a.0)))
  | inr e ↦ insert_fields_restore fs k m w a.1 (inr (ground arith, h.1))
]
insert_fields_restore ((n, some v) ∷ fs) k m w a h = elim (Bool-cases (text_eq n k)) [
  | inl e ↦ insert_fields_restore fs k (Maps.insert n v m) w a.1 (
      inl (
        rw (get-insert n k v m, e)
          (sym (subst (λ t. Maps.get t w ≡ some v) ((text_eq_iff n k).0 e) a.0))))
  | inr e ↦
      let same : Maps.get k (Maps.insert n v m) ≡ Maps.get k m = rw (get-insert n k v m, e) refl in
      insert_fields_restore fs k (Maps.insert n v m) w a.1
        (elim h [ inl h' ↦ inl (same ∙ h') | inr h' ↦ inr (ground arith, same ∙ h'.1) ])
]

read_strings-string :
    (m n : Attributes) → read_strings (map (λ a. (a.0, string a.1)) m) n ≡ ok (insert_all m n)
unfolding read_strings insert_all
read_strings-string [] n = refl
read_strings-string ((k, v) ∷ m) n = read_strings-string m (Maps.insert k v n)

module _ (uuid : UuidText) (e : Envelope) (readable : IsReadable e) where
  attributes-IsSorted : IsSorted (attributes uuid e)
  unfolding attributes
  attributes-IsSorted =
      remove_all-IsSorted column_attributes (to_attributes uuid e)
        (written-IsSorted uuid e readable)

  strings_lem :
      read_strings (map (λ a. (a.0, string a.1)) (attributes uuid e)) [] ≡ ok (attributes uuid e)
  strings_lem =
      read_strings-string (attributes uuid e) []
      ∙ ap (λ m. ok m) (insert_all_empty (attributes uuid e) attributes-IsSorted)

  columns_lem :
      (now : ℕ)
      → insert_columns uuid (row_of uuid now e) (attributes uuid e)
        ≡ insert_fields (columns uuid e) (attributes uuid e)
  unfolding insert_columns insert_some row_of MessageId.to_string
  columns_lem now = refl

  columns_swap :
      (a b c d s p t o : Bool)
      → (a || (b || (c || (d || (s || (p || (t || (o || false)))))))) ≡ true
      → (a || (b || (c || (d || (t || (s || (p || (o || false)))))))) ≡ true
  columns_swap a b c d s p t o h = ground arith

  columns-has :
      (k : Text)
      → any_of (λ n. text_eq n k) column_attributes ≡ true
      → names_has (columns uuid e) k ≡ true
  unfolding column_attributes
  columns-has k h =
      columns_swap (text_eq (codes "specversion") k) (text_eq (codes "id") k)
        (text_eq (codes "type") k) (text_eq (codes "source") k) (text_eq (codes "subject") k)
        (text_eq (codes "partitionkey") k) (text_eq (codes "datacontenttype") k)
        (text_eq (codes "dataschema") k) h

  kept_or_none :
      (k : Text)
      → (Maps.get k (attributes uuid e) ≡ Maps.get k (to_attributes uuid e))
        ⊎ ((names_has (columns uuid e) k ≡ true) × (Maps.get k (attributes uuid e) ≡ none))
  unfolding attributes
  kept_or_none k = elim (get-remove_all column_attributes k (to_attributes uuid e)) [
    | inl h ↦ inl h
    | inr h ↦ inr (columns-has k h.0, h.1)
  ]

  restored :
      (now : ℕ) → insert_columns uuid (row_of uuid now e) (attributes uuid e) ≡ to_attributes uuid e
  restored now =
      let a = to_attributes-fields uuid e readable.extensions in
      columns_lem now
      ∙ Map-ext (insert_fields (columns uuid e) (attributes uuid e)) (to_attributes uuid e)
          (insert_fields-IsSorted (columns uuid e) (attributes uuid e) attributes-IsSorted)
          (written-IsSorted uuid e readable)
          (λ k.
            insert_fields_restore (columns uuid e) k (attributes uuid e) (to_attributes uuid e)
              (
                a.0,
                (
                  a.1.0,
                  (
                    a.1.1.1.0,
                    (
                      a.1.1.0,
                      (
                        a.1.1.1.1.1.0,
                        (a.1.1.1.1.1.1.0, (a.1.1.1.1.1.1.1.1.0, (a.1.1.1.1.1.1.1.0, tt))),
                      ),
                    ),
                  ),
                ),
              )
              (kept_or_none k))

  -- The row that an envelope is inserted as is read back as the same envelope, not yet attempted and
  -- written at the row's time, if each of the envelope's parts passes its own check and the instant
  -- that PostgreSQL writes for the row's time is one that the code reads.
  pub record_of-row_of :
      (texts : Texts) (now : ℕ) (at : Timestamp)
      → Timestamp.from_str (texts.to_json now) ≡ ok at
      → record_of uuid texts (row_of uuid now e)
        ≡ ok (record { envelope = e; created_at = at; attempts = 0; leased_until = at })
  unfolding record_of row_of timestamp
  record_of-row_of texts now at h =
      rw (◌>>=◌, strings_lem, restored now, from_attributes-to_attributes uuid e readable, h) refl
