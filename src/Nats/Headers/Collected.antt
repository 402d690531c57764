-- ===== src/Nats/Headers/Collected.antt =====
-- crates/nats/src/subscribe.rs: the attributes that `read` collects from the headers.
use sisa_messaging_rs.Prelude.{
  ◌≡◌, refl, sym, ap, ◌∙◌, ◌⊎◌, false, List, [], ◌∷◌, ◌++◌, none, some, Bool-cases, Option-cases,
  inl, inr,
}
use sisa_messaging_rs.Prelude.Text.{Text, text_eq, text_eq_iff}
use sisa_messaging_rs.Prelude.Maps
use sisa_messaging_rs.Prelude.Maps.{Map, IsSorted}
use sisa_messaging_rs.Prelude.Maps.Laws.{get-insert, insert-IsSorted}
use sisa_messaging_rs.Core.MessageId.{UuidText}
use sisa_messaging_rs.Core.Envelope.Attributes.{Attributes}
use sisa_messaging_rs.Nats.{
  HeaderMaps, ce, read_headers, to_ascii_lowercase, strip_prefix, attribute,
}
use sisa_messaging_rs.Nats.Headers.{IsUnique, first, or_else}

abbrev pub IsLower : Text → Type 0
IsLower k = to_ascii_lowercase k ≡ k

-- The header is no attribute, or the one of an attribute's name in lowercase.
abbrev pub IsPlain : Text → Type 0
IsPlain n =
    (strip_prefix ce (to_ascii_lowercase n) ≡ none) ⊎ ((k : Text) × (n ≡ ce ++ k) × IsLower k)

abbrev pub ArePlain : List (Text × List Text) → Type 0
ArePlain l = (n : Text) (vs : List Text) → Maps.get n l ≡ some vs → IsPlain n

ArePlain-head :
    (n : Text) (vs : List Text) (l : List (Text × List Text)) → ArePlain ((n, vs) ∷ l) → IsPlain n
unfolding Maps.get
ArePlain-head n vs l p = p n vs (rw ((text_eq_iff n n).1 refl) refl)

ArePlain-tail :
    (n : Text) (vs : List Text) (l : List (Text × List Text))
    → Maps.get n l ≡ none
    → ArePlain ((n, vs) ∷ l)
    → ArePlain l
unfolding Maps.get
ArePlain-tail n vs l u p m ws found = elim (Bool-cases (text_eq n m)) [
  | inl e ↦ absurd (cc (found, u, (text_eq_iff n m).0 e))
  | inr e ↦ p m ws (rw e found)
]

-- No header that is no attribute has an attribute's name.
ce-strip :
    (k n : Text) → strip_prefix ce (to_ascii_lowercase n) ≡ none → text_eq n (ce ++ k) ≡ false
ce-strip k n h = elim (Bool-cases (text_eq n (ce ++ k))) [
  | inl e ↦
      absurd
        (cc (ap (λ x. strip_prefix ce (to_ascii_lowercase x)) ((text_eq_iff n (ce ++ k)).0 e), h))
  | inr e ↦ e
]

module _ {H : Type 0} (maps : HeaderMaps H) (uuid : UuidText) where
  get-other :
      (n v : Text) (vs : List Text) (l : List (Text × List Text)) (k : Text) (m : Attributes)
      → strip_prefix ce (to_ascii_lowercase n) ≡ none
      → Maps.get k (read_headers maps uuid l m)
        ≡ or_else (first (Maps.get (ce ++ k) l)) (Maps.get k m)
      → Maps.get k (read_headers maps uuid ((n, v ∷ vs) ∷ l) m)
        ≡ or_else (first (Maps.get (ce ++ k) ((n, v ∷ vs) ∷ l))) (Maps.get k m)
  unfolding read_headers Maps.get
  get-other n v vs l k m other ih =
      let e : attribute maps uuid (n, v ∷ vs) ≡ none = rw (attribute, other) refl in
      rw (e, ce-strip k n other) ih

  get-attribute :
      (j v : Text) (vs : List Text) (l : List (Text × List Text)) (k : Text) (m : Attributes)
      → IsLower j
      → Maps.get (ce ++ j) l ≡ none
      → Maps.get k (read_headers maps uuid l (Maps.insert j v m))
        ≡ or_else (first (Maps.get (ce ++ k) l)) (Maps.get k (Maps.insert j v m))
      → Maps.get k (read_headers maps uuid ((ce ++ j, v ∷ vs) ∷ l) m)
        ≡ or_else (first (Maps.get (ce ++ k) ((ce ++ j, v ∷ vs) ∷ l))) (Maps.get k m)
  unfolding read_headers Maps.get
  get-attribute j v vs l k m lower gone ih = elim (Bool-cases (text_eq j k)) [
    | inl e ↦
        let same : j ≡ k = (text_eq_iff j k).0 e in
        let none_left : Maps.get (ce ++ k) l ≡ none = rw (sym same) gone in
        rw (lower, e) (ih ∙ (rw (none_left, get-insert j k v m, e) refl))
    | inr e ↦ rw (lower, e) (ih ∙ (rw (get-insert j k v m, e) refl))
  ]

  -- What the collected attributes hold.
  pub get-read_headers :
      (l : List (Text × List Text)) (k : Text) (m : Attributes)
      → IsUnique l
      → ArePlain l
      → Maps.get k (read_headers maps uuid l m)
        ≡ or_else (first (Maps.get (ce ++ k) l)) (Maps.get k m)
  unfolding read_headers Maps.get
  get-read_headers [] k m u p = refl
  get-read_headers ((n, []) ∷ l) k m (gone, u) p =
      let ih = get-read_headers l k m u (ArePlain-tail n [] l gone p) in
      elim (Bool-cases (text_eq n (ce ++ k))) [
        | inl e ↦
            let none_left : Maps.get (ce ++ k) l ≡ none =
              rw (sym ((text_eq_iff n (ce ++ k)).0 e)) gone in
            rw (ih, e, none_left) refl
        | inr e ↦ rw (ih, e) refl
      ]
  get-read_headers ((n, v ∷ vs) ∷ l) k m (gone, u) p = elim (ArePlain-head n (v ∷ vs) l p) [
    | inl other ↦
        get-other n v vs l k m other (get-read_headers l k m u (ArePlain-tail n (v ∷ vs) l gone p))
    | inr (j, named, lower) ↦ rw named (
        get-attribute j v vs l k m lower (rw (sym named) gone)
          (get-read_headers l k (Maps.insert j v m) u (ArePlain-tail n (v ∷ vs) l gone p)))
  ]

  pub read_headers-IsSorted :
      (l : List (Text × List Text)) (m : Attributes)
      → IsSorted m
      → IsSorted (read_headers maps uuid l m)
  unfolding read_headers
  read_headers-IsSorted [] m s = s
  read_headers-IsSorted ((n, []) ∷ l) m s = read_headers-IsSorted l m s
  read_headers-IsSorted ((n, v ∷ vs) ∷ l) m s =
      elim (Option-cases (strip_prefix ce (to_ascii_lowercase n))) [
        | inl e ↦
            let e' : attribute maps uuid (n, v ∷ vs) ≡ none = rw (attribute, e) refl in
            rw e' (read_headers-IsSorted l m s)
        | inr (k, e) ↦
            let e' : attribute maps uuid (n, v ∷ vs) ≡ some (k, v) = rw (attribute, e) refl in
            rw e' (read_headers-IsSorted l (Maps.insert k v m) (insert-IsSorted k v m s))
      ]
