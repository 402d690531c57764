-- ===== src/Postgres/Partitions/Statements/Quoted.antt =====
-- crates/postgres/src/partitions.rs: a quoted name is one identifier to PostgreSQL.
use sisa_messaging_rs.Prelude.{
  ℕ, ◌≡◌, refl, sym, ap, ◌∙◌, Bool, false, [], ◌∷◌, ◌++◌, append_assoc, Option, none, some, ◌==◌,
  if◌then◌else◌, Bool-cases, inl, inr, arith,
}
use sisa_messaging_rs.Prelude.Text.{Text}
use sisa_messaging_rs.Postgres.Partitions.Statements.{quoted, replace}

abbrev with_char : ℕ → Option (Text × Text) → Option (Text × Text)
with_char c none = none
with_char c (some (name, rest)) = some (c ∷ name, rest)

-- An identifier after its opening quote, as SQL reads it: two quotes stand for one, and a single one
-- ends it. The answer is the identifier, and what follows its closing quote.
abbrev pub after_quote : Text → Option (Text × Text)
after_quote [] = none
after_quote (c ∷ []) = if c == 34 then some ([], []) else none
after_quote (c ∷ (d ∷ s)) =
    let doubled = after_quote s in
    let plain = after_quote (d ∷ s) in
    if c == 34
    then if d == 34 then with_char 34 doubled else some ([], d ∷ s)
    else with_char c plain

abbrev pub identifier : Text → Option (Text × Text)
identifier [] = none
identifier (c ∷ s) = if c == 34 then after_quote s else none

abbrev pub starts_quoted : Text → Bool
starts_quoted [] = false
starts_quoted (c ∷ s) = c == 34

after_quote-plain :
    (c : ℕ) (s : Text) → (c == 34) ≡ false → after_quote (c ∷ s) ≡ with_char c (after_quote s)
after_quote-plain c [] h = rw h refl
after_quote-plain c (d ∷ s) h = rw h refl

closing : (rest : Text) → starts_quoted rest ≡ false → after_quote (34 ∷ rest) ≡ some ([], rest)
closing [] h = refl
closing (d ∷ s) h = rw h refl

replaced :
    (name rest : Text)
    → starts_quoted rest ≡ false
    → after_quote (replace 34 (34 ∷ (34 ∷ [])) name ++ (34 ∷ rest)) ≡ some (name, rest)
replaced [] rest h = closing rest h
replaced (c ∷ name) rest h = elim (Bool-cases (c == 34)) [
  | inl e ↦
      let same : c ≡ 34 = ground arith in
      rw e (rw (replaced name rest h) (ap (λ x. some (x ∷ name, rest)) (sym same)))
  | inr e ↦ rw e (
      after_quote-plain c (replace 34 (34 ∷ (34 ∷ [])) name ++ (34 ∷ rest)) e
      ∙ rw (replaced name rest h) refl)
]

-- A name in double quotes is read by SQL as one identifier, which is the name itself whatever
-- characters are in it, with the statement's rest after it, if that does not start with another quote.
pub identifier-quoted :
    (name rest : Text)
    → starts_quoted rest ≡ false
    → identifier (quoted name ++ rest) ≡ some (name, rest)
unfolding quoted
identifier-quoted name rest h =
    rw (append_assoc (replace 34 (34 ∷ (34 ∷ [])) name) (34 ∷ []) rest) (replaced name rest h)
