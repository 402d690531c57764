-- ===== src/Core/Envelope/Attributes/Written.antt =====
-- crates/core/src/envelope.rs: the attributes of an envelope, each field's and each extension's.
use sisa_messaging_rs.Prelude.{
  ◌≡◌, refl, Bool, true, false, List, [], ◌∷◌, none, arith, Bool-cases, inl, inr, subst, ◌∙◌,
}
use sisa_messaging_rs.Prelude.Lists.{All, any_of}
use sisa_messaging_rs.Prelude.Text.{Text, text_eq, text_eq_iff}
use sisa_messaging_rs.Prelude.Maps
use sisa_messaging_rs.Prelude.Maps.{Map, Above, IsSorted, lt_text}
use sisa_messaging_rs.Prelude.Maps.Laws.{get-insert, lt_text_irrefl}
use sisa_messaging_rs.Core.MessageId.{UuidText}
use sisa_messaging_rs.Core.Envelope.Extensions
use sisa_messaging_rs.Core.Envelope.Extensions.{Extensions, check_name, is_reserved, reserved}
use sisa_messaging_rs.Core.Envelope.Extensions.Valid.{IsValid, IsName}
use sisa_messaging_rs.Core.Envelope.Defs.{Envelope}
use sisa_messaging_rs.Core.Envelope.Attributes.{
  Attributes, insert_some, insert_all, required_attributes, optional_attributes, to_attributes,
}
use sisa_messaging_rs.Core.Envelope.Attributes.Fields.{
  Field, fields, insert_fields, names_has, no_attributes, insert_fields-other, insert_fields-get,
  empty_none,
}

abbrev pub keys_have : Map Text → Text → Bool
keys_have xs k = any_of (λ x. text_eq x.0 k) xs

pub insert_all-other :
    (xs : List (Text × Text)) (k : Text) (m : Attributes)
    → keys_have xs k ≡ false
    → Maps.get k (insert_all xs m) ≡ Maps.get k m
unfolding insert_all
insert_all-other [] k m h = refl
insert_all-other ((n, v) ∷ xs) k m h =
    insert_all-other xs k (Maps.insert n v m) (ground arith)
    ∙ (let e : text_eq n k ≡ false = ground arith in rw (get-insert n k v m, e) refl)

Above-keys : (k : Text) (xs : Map Text) → Above k xs → keys_have xs k ≡ false
Above-keys k [] a = refl
Above-keys k ((j, w) ∷ xs) a =
    ground (arith, text_eq_iff j k, lt_text_irrefl k, Above-keys k xs a.1)

pub insert_all-get :
    (xs : Map Text) (k : Text) (m : Attributes)
    → IsSorted xs
    → Maps.get k m ≡ none
    → Maps.get k (insert_all xs m) ≡ Maps.get k xs
unfolding insert_all Maps.get
insert_all-get [] k m s h = h
insert_all-get ((n, v) ∷ xs) k m s h = elim (Bool-cases (text_eq n k)) [
  | inl e ↦
      let same : n ≡ k = (text_eq_iff n k).0 e in
      insert_all-other xs k (Maps.insert n v m) (Above-keys k xs (subst (λ t. Above t xs) same s.0))
      ∙ (rw (get-insert n k v m, e) refl)
  | inr e ↦ rw e (insert_all-get xs k (Maps.insert n v m) s.1 (rw (get-insert n k v m, e) h))
]

IsName-reserved : (n v : Text) → IsName (n, v) → is_reserved n ≡ false
unfolding check_name
IsName-reserved n v h = ground arith

pub names-reserved :
    (xs : Map Text) (k : Text) → All IsName xs → is_reserved k ≡ true → keys_have xs k ≡ false
names-reserved [] k a r = refl
names-reserved ((n, v) ∷ xs) k a r =
    ground (arith, text_eq_iff n k, IsName-reserved n v a.0, names-reserved xs k a.1 r)

pub base_fields :
    (uuid : UuidText) (e : Envelope)
    → optional_attributes uuid e (required_attributes uuid e)
      ≡ insert_fields (fields uuid e) no_attributes
unfolding optional_attributes required_attributes insert_some
base_fields uuid e = refl

pub fields-reserved :
    (uuid : UuidText) (e : Envelope) → All (λ f. is_reserved f.0 ≡ true) (fields uuid e)
unfolding is_reserved
fields-reserved uuid e = (
  refl,
  (
    refl,
    (refl, (refl, (refl, (refl, (refl, (refl, (refl, (refl, (refl, (refl, (refl, tt))))))))))),
  ),
)

not_named :
    (fs : List Field) (k : Text)
    → All (λ f. is_reserved f.0 ≡ true) fs
    → is_reserved k ≡ false
    → names_has fs k ≡ false
not_named [] k r h = refl
not_named ((n, v) ∷ fs) k r h = ground (arith, text_eq_iff n k, not_named fs k r.1 h)

through_extensions :
    (fs : List Field) (xs : Map Text) (m : Attributes)
    → All IsName xs
    → All (λ f. is_reserved f.0 ≡ true) fs
    → All (λ f. Maps.get f.0 m ≡ f.1) fs
    → All (λ f. Maps.get f.0 (insert_all xs m) ≡ f.1) fs
through_extensions [] xs m names r a = tt
through_extensions (f ∷ fs) xs m names r a = (
  insert_all-other xs f.0 m (names-reserved xs f.0 names r.0) ∙ a.0,
  through_extensions fs xs m names r.1 a.1,
)

-- The attributes of an envelope with valid extensions have each field of the table under its name,
-- and no value for a field that is absent.
pub to_attributes-fields :
    (uuid : UuidText) (e : Envelope)
    → IsValid e.extensions
    → All (λ f. Maps.get f.0 (to_attributes uuid e) ≡ f.1) (fields uuid e)
unfolding to_attributes
to_attributes-fields uuid e valid =
    through_extensions (fields uuid e) e.extensions.entries
      (optional_attributes uuid e (required_attributes uuid e)) valid.names (fields-reserved uuid e)
      (rw (base_fields uuid e)
        (insert_fields-get (fields uuid e) no_attributes refl (empty_none (fields uuid e))))

-- Under any name that is not reserved, the attributes of an envelope with valid extensions have the
-- extension of that name, if there is one.
pub to_attributes-extension :
    (uuid : UuidText) (e : Envelope) (name : Text)
    → IsValid e.extensions
    → is_reserved name ≡ false
    → Maps.get name (to_attributes uuid e) ≡ Extensions.get e.extensions name
unfolding to_attributes Extensions.get Maps.get
to_attributes-extension uuid e name valid h =
    insert_all-get e.extensions.entries name
      (optional_attributes uuid e (required_attributes uuid e)) valid.sorted
      (rw (base_fields uuid e) (
        insert_fields-other (fields uuid e) name no_attributes
          (not_named (fields uuid e) name (fields-reserved uuid e) h)))
