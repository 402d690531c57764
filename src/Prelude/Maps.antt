-- ===== src/Prelude/Maps.antt =====
-- `BTreeMap<String, V>`: an association list in key order. Strings compare by their UTF-8 bytes,
-- which is the order of their characters.
pub mod Laws
use sisa_messaging_rs.Prelude.{
  Bool, true, false, ◌≡◌, List, [], ◌∷◌, Option, none, some, ltb, ◌==◌, if◌then◌else◌,
}
use sisa_messaging_rs.Prelude.Lists.{All}
use sisa_messaging_rs.Prelude.Text.{Text, text_eq}

abbrev pub lt_text : Text → Text → Bool
lt_text s [] = false
lt_text [] (d ∷ t) = true
lt_text (c ∷ s) (d ∷ t) = if ltb c d then true else if c == d then lt_text s t else false

abbrev pub Map {ℓ} : Type ℓ → Type ℓ
Map V = List (Text × V)

module _ {ℓ} {V : Type ℓ} where
  unfoldable pub get : Text → Map V → Option V
  get k [] = none
  get k ((j, v) ∷ m) = if text_eq j k then some v else get k m

  unfoldable pub insert : Text → V → Map V → Map V
  insert k v [] = (k, v) ∷ []
  insert k v ((j, w) ∷ m) =
      if text_eq j k
      then (k, v) ∷ m
      else if lt_text k j
      then (k, v) ∷ ((j, w) ∷ m)
      else (j, w) ∷ insert k v m

  unfoldable pub remove : Text → Map V → Map V
  remove k [] = []
  remove k ((j, w) ∷ m) = let rest = remove k m in if text_eq j k then rest else (j, w) ∷ rest

  -- Keys in strictly ascending order, which is what a `BTreeMap` holds.
  abbrev pub Above : Text → Map V → Type 0
  Above k [] = Unit
  Above k ((j, w) ∷ m) = (lt_text k j ≡ true) × Above k m

  abbrev pub IsSorted : Map V → Type 0
  IsSorted [] = Unit
  IsSorted ((j, w) ∷ m) = Above j m × IsSorted m
