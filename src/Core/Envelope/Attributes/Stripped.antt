-- ===== src/Core/Envelope/Attributes/Stripped.antt =====
-- crates/core/src/envelope.rs: the attributes that are left as `from_attributes` takes some out.
use sisa_messaging_rs.Prelude.{
  ◌≡◌, refl, Bool, true, false, List, [], ◌∷◌, none, arith, Bool-cases, inl, inr, subst,
}
use sisa_messaging_rs.Prelude.Lists.{All, any_of}
use sisa_messaging_rs.Prelude.Text.{Text, codes, text_eq, text_eq_iff}
use sisa_messaging_rs.Prelude.Maps
use sisa_messaging_rs.Prelude.Maps.{Map, IsSorted}
use sisa_messaging_rs.Prelude.Maps.Laws.{get-remove, remove-IsSorted}
use sisa_messaging_rs.Core.MessageId.{UuidText}
use sisa_messaging_rs.Core.Envelope.Extensions
use sisa_messaging_rs.Core.Envelope.Extensions.{Extensions}
use sisa_messaging_rs.Core.Envelope.Defs.{Envelope}
use sisa_messaging_rs.Core.Envelope.Attributes.{Attributes}
use sisa_messaging_rs.Core.Envelope.Attributes.Fields.{Field, fields, names_has}

-- The map without some names, the last one removed first.
abbrev pub stripped : List Text → Attributes → Attributes
stripped [] m = m
stripped (n ∷ ns) m = Maps.remove n (stripped ns m)

abbrev pub has : List Text → Text → Bool
has ns k = any_of (λ n. text_eq n k) ns

pub get-stripped :
    (ns : List Text) (k : Text) (m : Attributes)
    → has ns k ≡ false
    → Maps.get k (stripped ns m) ≡ Maps.get k m
get-stripped [] k m h = refl
get-stripped (n ∷ ns) k m h =
    let e : text_eq n k ≡ false = ground arith in
    rw (get-remove n k (stripped ns m), e) (get-stripped ns k m (ground arith))

pub get-stripped-none :
    (ns : List Text) (k : Text) (m : Attributes)
    → has ns k ≡ true
    → Maps.get k (stripped ns m) ≡ none
get-stripped-none [] k m h = cc
get-stripped-none (n ∷ ns) k m h = elim (Bool-cases (text_eq n k)) [
  | inl e ↦ rw (get-remove n k (stripped ns m), e) refl
  | inr e ↦ rw (get-remove n k (stripped ns m), e) (get-stripped-none ns k m (ground arith))
]

pub stripped-IsSorted : (ns : List Text) (m : Attributes) → IsSorted m → IsSorted (stripped ns m)
stripped-IsSorted [] m s = s
stripped-IsSorted (n ∷ ns) m s = remove-IsSorted n (stripped ns m) (stripped-IsSorted ns m s)

-- The names that are removed, by how many were before, newest first.
abbrev pub removed1 : List Text
removed1 = codes "specversion" ∷ []

abbrev pub removed2 : List Text
removed2 = codes "id" ∷ removed1

abbrev pub removed3 : List Text
removed3 = codes "source" ∷ removed2

abbrev pub removed4 : List Text
removed4 = codes "type" ∷ removed3

abbrev pub removed5 : List Text
removed5 = codes "time" ∷ removed4

abbrev pub removed6 : List Text
removed6 = codes "datacontenttype" ∷ removed5

abbrev pub removed7 : List Text
removed7 = codes "subject" ∷ removed6

abbrev pub removed8 : List Text
removed8 = codes "dataschema" ∷ removed7

abbrev pub removed9 : List Text
removed9 = codes "partitionkey" ∷ removed8

abbrev pub removed10 : List Text
removed10 = codes "correlationid" ∷ removed9

abbrev pub removed11 : List Text
removed11 = codes "causationid" ∷ removed10

abbrev pub removed12 : List Text
removed12 = codes "tracestate" ∷ removed11

abbrev pub removed13 : List Text
removed13 = codes "traceparent" ∷ removed12

pub has-reserved :
    (ns : List Text) (k : Text)
    → All (λ n. Extensions.is_reserved n ≡ true) ns
    → has ns k ≡ true
    → Extensions.is_reserved k ≡ true
has-reserved [] k a h = cc
has-reserved (n ∷ ns) k a h = elim (Bool-cases (text_eq n k)) [
  | inl e ↦ subst (λ t. Extensions.is_reserved t ≡ true) ((text_eq_iff n k).0 e) a.0
  | inr e ↦ has-reserved ns k a.1 (ground arith)
]

pub removed-reserved : All (λ n. Extensions.is_reserved n ≡ true) removed13
unfolding Extensions.is_reserved
removed-reserved = (
  refl,
  (
    refl,
    (refl, (refl, (refl, (refl, (refl, (refl, (refl, (refl, (refl, (refl, (refl, tt))))))))))),
  ),
)

pub names-has :
    (ns : List Text) (fs : List Field) (k : Text)
    → All (λ f. has ns f.0 ≡ true) fs
    → has ns k ≡ false
    → names_has fs k ≡ false
names-has ns [] k a h = refl
names-has ns (f ∷ fs) k a h = elim (Bool-cases (text_eq f.0 k)) [
  | inl e ↦
      let other : has ns k ≡ true = subst (λ t. has ns t ≡ true) ((text_eq_iff f.0 k).0 e) a.0 in cc
  | inr e ↦ rw e (names-has ns fs k a.1 h)
]

pub fields-removed :
    (uuid : UuidText) (e : Envelope) → All (λ f. has removed13 f.0 ≡ true) (fields uuid e)
fields-removed uuid e = (
  refl,
  (
    refl,
    (refl, (refl, (refl, (refl, (refl, (refl, (refl, (refl, (refl, (refl, (refl, tt))))))))))),
  ),
)
