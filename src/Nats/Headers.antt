-- ===== src/Nats/Headers.antt =====
-- crates/nats/src/transport.rs: the headers of an envelope, one for each attribute. What
-- async-nats documents of its header maps is a record of laws.
pub mod Collected
pub mod Names
pub mod RoundTrip
use sisa_messaging_rs.Prelude.{
  ◌≡◌, ◌≢◌, refl, sym, subst, ◌∙◌, Bool, true, false, List, [], ◌∷◌, ◌++◌, Option, none, some,
  Result, ok, arith, Bool-cases, inl, inr, if◌then◌else◌,
}
use sisa_messaging_rs.Prelude.Lists.{All}
use sisa_messaging_rs.Prelude.Text.{Text, codes, text_eq, text_eq_iff}
use sisa_messaging_rs.Prelude.Maps
use sisa_messaging_rs.Prelude.Maps.{Map, IsSorted}
use sisa_messaging_rs.Prelude.Maps.Laws.{get-Above}
use sisa_messaging_rs.Core.Transport.{TransportError}
use sisa_messaging_rs.Core.MessageId.{UuidText}
use sisa_messaging_rs.Core.Envelope.Attributes.{Attributes}
use sisa_messaging_rs.Nats.{HeaderMaps, ce, msg_id, insert_parsed}

-- A text without a line break.
abbrev pub IsLine : Text → Type 0
IsLine = All (λ c. (c ≢ 13) × (c ≢ 10))

-- Each name once.
abbrev pub IsUnique : List (Text × List Text) → Type 0
IsUnique [] = Unit
IsUnique ((n, vs) ∷ l) = (Maps.get n l ≡ none) × IsUnique l

-- `iter` gives each name once, with its values; `insert` sets a name's only value; and a text
-- without a line break is a header's value.
pub record HeaderLaws {H : Type 0} (maps : HeaderMaps H) : Type 0 where
  pub iter-new : maps.iter maps.new ≡ []
  pub iter-IsUnique : (h : H) → IsUnique (maps.iter h)
  pub iter-insert :
      (k v n : Text) (h : H)
      → Maps.get n (maps.iter (maps.insert k v h))
        ≡ (if text_eq k n then some (v ∷ []) else Maps.get n (maps.iter h))
  pub parse_value-line : (v : Text) → IsLine v → maps.parse_value v ≡ ok v

abbrev pub first : Option (List Text) → Option Text
first none = none
first (some []) = none
first (some (v ∷ vs)) = some v

abbrev pub or_else : Option Text → Option Text → Option Text
or_else none o = o
or_else (some v) o = some v

module _ {H : Type 0} (maps : HeaderMaps H) (laws : HeaderLaws maps) (uuid : UuidText) where
  abbrev pub inserted : Attributes → H → H
  inserted [] h = h
  inserted ((name, value) ∷ a) h = inserted a (maps.insert (ce ++ name) value h)

  pub insert_parsed_lem :
      (a : Attributes) (h : H)
      → All (λ p. IsLine p.1) a
      → insert_parsed maps uuid a h ≡ ok (inserted a h)
  unfolding insert_parsed
  insert_parsed_lem [] h l = refl
  insert_parsed_lem ((name, value) ∷ a) h (l, ls) =
      rw (laws.parse_value-line value l) (insert_parsed_lem a (maps.insert (ce ++ name) value h) ls)

  -- The header of an attribute's name.
  pub inserted-get :
      (a : Attributes) (k : Text) (h : H)
      → IsSorted a
      → first (Maps.get (ce ++ k) (maps.iter (inserted a h)))
        ≡ or_else (Maps.get k a) (first (Maps.get (ce ++ k) (maps.iter h)))
  unfolding Maps.get
  inserted-get [] k h s = refl
  inserted-get ((name, value) ∷ a) k h s = elim (Bool-cases (text_eq name k)) [
    | inl e ↦
        let same : name ≡ k = (text_eq_iff name k).0 e in
        let gone : Maps.get k a ≡ none = rw (sym same) (get-Above name a s.0) in
        rw e (
          inserted-get a k (maps.insert (ce ++ name) value h) s.1
          ∙ (rw (gone, laws.iter-insert (ce ++ name) value (ce ++ k) h, e) refl))
    | inr e ↦ rw e (
        inserted-get a k (maps.insert (ce ++ name) value h) s.1
        ∙ (rw (laws.iter-insert (ce ++ name) value (ce ++ k) h, e) refl))
  ]

  abbrev pub NamesAre : (Text → Type 0) → H → Type 0
  NamesAre G h = (n : Text) (vs : List Text) → Maps.get n (maps.iter h) ≡ some vs → G n

  pub insert-NamesAre :
      (G : Text → Type 0) (k v : Text) (h : H) → G k → NamesAre G h → NamesAre G (maps.insert k v h)
  insert-NamesAre G k v h g gs n vs found = elim (Bool-cases (text_eq k n)) [
    | inl e ↦ subst G ((text_eq_iff k n).0 e) g
    | inr e ↦ gs n vs (sym (rw e at (laws.iter-insert k v n h)) ∙ found)
  ]

  -- Every header is an attribute's.
  pub inserted-NamesAre :
      (G : Text → Type 0) (a : Attributes) (h : H)
      → All (λ p. G (ce ++ p.0)) a
      → NamesAre G h
      → NamesAre G (inserted a h)
  inserted-NamesAre G [] h l gs = gs
  inserted-NamesAre G ((name, value) ∷ a) h (g, l) gs =
      inserted-NamesAre G a (maps.insert (ce ++ name) value h) l
        (insert-NamesAre G (ce ++ name) value h g gs)

  pub new-NamesAre : (G : Text → Type 0) → NamesAre G maps.new
  unfolding Maps.get
  new-NamesAre G n vs found = absurd (cc (found, laws.iter-new))
