-- ===== src/Runtime/Bus/Started.antt =====
-- crates/runtime/src/bus.rs: which error `start` reports, and what runs once it succeeds.
pub mod Spawned
use sisa_messaging_rs.Prelude.{
  ◌≡◌, refl, ◌∙◌, ap, sym, subst, ◌⊎◌, Bool, true, false, List, [], ◌∷◌, ◌++◌, Option, none, some,
  Result, ok, err, map_err, map, arith, Bool-cases, Option-cases, Result-cases, inl, inr,
  ◌>>=◌ as ◌>>!◌, if◌then◌else◌,
}
use sisa_messaging_rs.Prelude.Lists.{any_of, All}
use sisa_messaging_rs.Prelude.Text.{Text, text_eq, text_eq_iff}
use sisa_messaging_rs.Runtime.Endpoint.Builder.{BuiltEndpoint}
use sisa_messaging_rs.Runtime.StartError.{StartError, duplicate_endpoint}
use sisa_messaging_rs.Runtime.Bus.{AddedEndpoint, check_endpoints}

module _ {W : Type 0} where
  abbrev pub built : Text × BuiltEndpoint W → AddedEndpoint W
  built e = (e.0, ok e.1)

  -- No name is that of an earlier endpoint, or of `names`.
  abbrev pub AreNew : List Text → List (Text × BuiltEndpoint W) → Type 0
  AreNew names [] = Unit
  AreNew names ((name, e) ∷ es) = (any_of (text_eq name) names ≡ false) × AreNew (name ∷ names) es

  -- The names met after some endpoints, newest first.
  abbrev pub names_after : List Text → List (Text × BuiltEndpoint W) → List Text
  names_after names [] = names
  names_after names ((name, e) ∷ es) = names_after (name ∷ names) es

  -- How the loop over the endpoints ends: every endpoint was built under a new name, or a first one was
  -- not, after others that were.
  pub data Checked (names : List Text) (added : List (AddedEndpoint W))
      : Result StartError (List (BuiltEndpoint W)) → Type 0 where
    all_good :
        (es : List (Text × BuiltEndpoint W))
        → added ≡ map built es
        → AreNew names es
        → Checked names added (ok (map (λ e. e.1) es))
    name_twice :
        (es : List (Text × BuiltEndpoint W)) (name : Text) (r : Result StartError (BuiltEndpoint W))
        (rest : List (AddedEndpoint W))
        → added ≡ map built es ++ ((name, r) ∷ rest)
        → AreNew names es
        → any_of (text_eq name) (names_after names es) ≡ true
        → Checked names added (err (duplicate_endpoint name))
    not_built :
        (es : List (Text × BuiltEndpoint W)) (name : Text) (e : StartError)
        (rest : List (AddedEndpoint W))
        → added ≡ map built es ++ ((name, err e) ∷ rest)
        → AreNew names es
        → any_of (text_eq name) (names_after names es) ≡ false
        → Checked names added (err e)

  after_one :
      (names : List Text) (name : Text) (e : BuiltEndpoint W) (added : List (AddedEndpoint W))
      (r : Result StartError (List (BuiltEndpoint W)))
      → any_of (text_eq name) names ≡ false
      → Checked (name ∷ names) added r
      → Checked names ((name, ok e) ∷ added) (r >>! λ es. ok (e ∷ es))
  after_one names name e added _ new (all_good es split good) =
      all_good ((name, e) ∷ es) (ap (λ l. (name, ok e) ∷ l) split) (new, good)
  after_one names name e added _ new (name_twice es twice r rest split good h) =
      name_twice ((name, e) ∷ es) twice r rest (ap (λ l. (name, ok e) ∷ l) split) (new, good) h
  after_one names name e added _ new (not_built es bad x rest split good h) =
      not_built ((name, e) ∷ es) bad x rest (ap (λ l. (name, ok e) ∷ l) split) (new, good) h

  -- The endpoints are checked in the order in which they were added, and the first that is at fault
  -- decides the error: `DuplicateEndpoint` if its name was met before, and otherwise why it could not be
  -- built. Without a fault, every endpoint was built, and no name is there twice.
  pub check_endpoints-Checked :
      (names : List Text) (added : List (AddedEndpoint W))
      → Checked names added (check_endpoints names added)
  unfolding check_endpoints
  check_endpoints-Checked names [] = all_good [] refl tt
  check_endpoints-Checked names ((name, r) ∷ added) =
      elim (Bool-cases (any_of (text_eq name) names)) [
        | inl h ↦ rw h (name_twice [] name r added refl tt h)
        | inr h ↦ elim (Result-cases r) [
          | inl (e, q) ↦
              rw (h, q)
                (after_one names name e added (check_endpoints (name ∷ names) added) h
                  (check_endpoints-Checked (name ∷ names) added))
          | inr (x, q) ↦ rw (h, q) (not_built [] name x added refl tt h)
        ]
      ]
