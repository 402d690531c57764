-- ===== src/Core/Envelope/Extensions/Names.antt =====
-- crates/core/src/envelope.rs: which names `Extensions::insert` takes, and what it does on each path.
use sisa_messaging_rs.Prelude.{
  ℕ, ◌≤◌, ◌<◌, ◌≡◌, ◌≢◌, refl, sym, ◌⊎◌, inl, inr, true, false, List, [], ◌∷◌, ◌++◌, Option, some,
  Result, ok, err, ltb, arith, if◌then◌else◌, Bool-cases,
}
use sisa_messaging_rs.Prelude.Lists.{length, all_of, any_of, All}
use sisa_messaging_rs.Prelude.Text.{Text, codes, utf8, bytes, text_eq, text_eq_iff}
use sisa_messaging_rs.Prelude.Maps.{IsSorted}
use sisa_messaging_rs.Prelude.Maps.Laws.{All-insert, get-insert, insert-IsSorted}
use sisa_messaging_rs.Core.Error.{EnvelopeError, invalid}
use sisa_messaging_rs.Core.MessageType.{is_empty}
use sisa_messaging_rs.Core.MessageType.Grammar.{IsDigit, IsWord}
use sisa_messaging_rs.Core.Envelope.Extensions.{
  Extensions, is_name_byte, reserved, is_reserved, check_name, insert, get,
}

-- The attributes that the envelope has a field for, or that carry its data.
abbrev attributes : List Text
attributes =
    codes "specversion"
    ∷ codes "id"
    ∷ codes "source"
    ∷ codes "type"
    ∷ codes "time"
    ∷ codes "datacontenttype"
    ∷ codes "subject"
    ∷ codes "dataschema"
    ∷ codes "partitionkey"
    ∷ codes "traceparent"
    ∷ codes "tracestate"
    ∷ codes "correlationid"
    ∷ codes "causationid"
    ∷ codes "data"
    ∷ []

-- A lowercase letter or a digit, as a character.
abbrev pub IsNameChar : ℕ → Type 0
IsNameChar c = (b'a' ≤ c) × (c ≤ b'z') ⊎ IsDigit c

abbrev pub IsFree : Text → Type 0
IsFree name = All (λ t. name ≢ t) attributes

pub record IsExtensionName (name : Text) : Type 0 where
  pub word : IsWord IsNameChar name
  pub short : length name ≤ 20
  pub free : IsFree name

abbrev pub IsNamed : Text × Text → Type 0
IsNamed entry = IsExtensionName entry.0

-- Extensions with names of that form, each once.
pub record IsProper (e : Extensions) : Type 0 where
  pub names : All IsNamed e.entries
  pub sorted : IsSorted e.entries

-- What `insert` answers, by the name.
pub data Inserts (e : Extensions) (name value : Text)
    : Result EnvelopeError (Extensions × Option Text) → Type 0 where
  inserted :
      (e' : Extensions)
      → IsExtensionName name
      → IsProper e'
      → ((k : Text) → get e' k ≡ (if text_eq name k then some value else get e k))
      → Inserts e name value (ok (e', get e name))
  misspelt :
      ¬ IsWord IsNameChar name
      → Inserts e name value (err (invalid name "not lowercase letters and digits"))
  long :
      IsWord IsNameChar name
      → 20 < length name
      → Inserts e name value (err (invalid name "longer than 20 characters"))
  taken :
      IsWord IsNameChar name
      → length name ≤ 20
      → ¬ IsFree name
      → Inserts e name value (err (invalid name "has a field of its own in the envelope"))

utf8-name :
    (c : ℕ) (rest : List ℕ)
    → all_of is_name_byte (utf8 c ++ rest) ≡ true
    → (utf8 c ≡ c ∷ []) × IsNameChar c × (all_of is_name_byte rest ≡ true)
utf8-name c rest h = elim (Bool-cases (ltb c 0x80)) [ inl e ↦ ground arith | inr e ↦ ground arith ]

utf8_small : (c : ℕ) → IsNameChar c → utf8 c ≡ c ∷ []
utf8_small c h = ground arith

char_byte : (c : ℕ) → IsNameChar c → is_name_byte c ≡ true
char_byte c h = ground arith

name-bytes : (s : Text) → all_of is_name_byte (bytes s) ≡ true → (bytes s ≡ s) × All IsNameChar s
unfolding bytes
name-bytes [] h = (refl, tt)
name-bytes (c ∷ s) h =
    let (e, p, rest) = utf8-name c (bytes s) h in
    let (es, ps) = name-bytes s rest in (rw (e, es) refl, (p, ps))

bytes-name : (s : Text) → All IsNameChar s → (bytes s ≡ s) × (all_of is_name_byte s ≡ true)
unfolding bytes
bytes-name [] h = (refl, refl)
bytes-name (c ∷ s) (p, ps) =
    let (e, h) = bytes-name s ps in (rw (utf8_small c p, e) refl, rw (char_byte c p) h)

any_of-All :
    (name : Text) (ts : List Text)
    → any_of (λ r. text_eq r name) ts ≡ false
    → All (λ t. name ≢ t) ts
any_of-All name [] h = tt
any_of-All name (t ∷ ts) h =
    let other : text_eq t name ≡ false = ground arith in
    (λ e. cc (other, (text_eq_iff t name).1 (sym e)), any_of-All name ts (ground arith))

All-any_of :
    (name : Text) (ts : List Text)
    → any_of (λ r. text_eq r name) ts ≡ true
    → ¬ All (λ t. name ≢ t) ts
All-any_of name [] h a = cc
All-any_of name (t ∷ ts) h a = elim (Bool-cases (text_eq t name)) [
  | inl e ↦ a.0 (sym ((text_eq_iff t name).0 e))
  | inr e ↦ All-any_of name ts (ground arith) a.1
]

-- A name is reserved exactly when it is one of the attributes.
pub unreserved_name : (name : Text) → is_reserved name ≡ false → IsFree name
unfolding is_reserved reserved
unreserved_name name h = any_of-All name attributes h

reserved_name : (name : Text) → is_reserved name ≡ true → ¬ IsFree name
unfolding is_reserved reserved
reserved_name name h = All-any_of name attributes h

empty_eq : (s : Text) → is_empty s ≡ true → s ≡ []
empty_eq [] h = refl
empty_eq (c ∷ s) h = absurd (cc h)

full_ne : (s : Text) → is_empty s ≡ false → s ≢ []
full_ne [] h = λ e. cc h
full_ne (c ∷ s) h = λ e. cc e

-- `insert` answers by the name alone: it takes the names of 1 to 20 lowercase letters and digits that
-- are none of the envelope's attributes, and refuses each other name for the first rule that it
-- breaks. When it takes the name, the answer is the value that the name had, and of extensions with
-- such names it makes extensions with such names, where the name has the new value and each other
-- name the one that it had.
pub insert-Inserts :
    (e : Extensions) (name value : Text) → IsProper e → Inserts e name value (insert e name value)
unfolding insert check_name get
insert-Inserts e name value proper = elim (Bool-cases (is_empty name)) [
  | inl empty ↦ rw (insert, check_name, empty) (misspelt λ w. w.0 (empty_eq name empty))
  | inr full ↦ elim (Bool-cases (all_of is_name_byte (bytes name))) [
    | inr other ↦
        rw (insert, check_name, full, other)
          (misspelt λ w. (let b = bytes-name name w.1 in cc (rw b.0 at other, b.1)))
    | inl chars ↦
        let (same, all) = name-bytes name chars in
        let word : IsWord IsNameChar name = (full_ne name full, all) in
        elim (Bool-cases (ltb 20 (length name))) [
          | inl h ↦ rw (insert, check_name, full, chars, same, h) (long word (ground arith))
          | inr h ↦
              let short : length name ≤ 20 = ground arith in
              elim (Bool-cases (is_reserved name)) [
                | inl r ↦
                    rw (insert, check_name, full, chars, same, h, r)
                      (taken word short (reserved_name name r))
                | inr r ↦
                    let named : IsExtensionName name = record {
                      word = word;
                      short = short;
                      free = unreserved_name name r;
                    } in
                    rw (insert, check_name, full, chars, same, h, r)
                      (inserted _ named
                        (record {
                          names = All-insert IsNamed name value e.entries named proper.names;
                          sorted = insert-IsSorted name value e.entries proper.sorted;
                        })
                        λ k. get-insert name k value e.entries)
              ]
        ]
  ]
]
