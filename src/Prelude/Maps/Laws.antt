-- ===== src/Prelude/Maps/Laws.antt =====
-- The laws of ordered maps.
use sisa_messaging_rs.Prelude.{
  true, false, ◌≡◌, refl, [], ◌∷◌, none, some, if◌then◌else◌, arith, Bool-cases, inl, inr,
}
use sisa_messaging_rs.Prelude.Lists.{All}
use sisa_messaging_rs.Prelude.Text.{Text, text_eq, text_eq_iff}
use sisa_messaging_rs.Prelude.Maps.{Map, lt_text, get, insert, remove, Above, IsSorted}

pub text_eq_refl : (s : Text) → text_eq s s ≡ true
text_eq_refl s = (text_eq_iff s s).1 refl

pub lt_text_trans : (s t u : Text) → lt_text s t ≡ true → lt_text t u ≡ true → lt_text s u ≡ true
lt_text_trans s [] u h k = cc
lt_text_trans s (d ∷ t) [] h k = cc
lt_text_trans [] (d ∷ t) (e ∷ u) h k = refl
lt_text_trans (c ∷ s) (d ∷ t) (e ∷ u) h k = ground (arith, lt_text_trans s t u)

pub lt_text_irrefl : (s : Text) → lt_text s s ≡ false
lt_text_irrefl [] = refl
lt_text_irrefl (c ∷ s) = ground (arith, lt_text_irrefl s)

pub lt_text_total : (s t : Text) → lt_text s t ≡ false → text_eq t s ≡ false → lt_text t s ≡ true
lt_text_total [] [] h k = cc
lt_text_total [] (d ∷ t) h k = cc
lt_text_total (c ∷ s) [] h k = refl
lt_text_total (c ∷ s) (d ∷ t) h k = ground (arith, lt_text_total s t)

module _ {ℓ} {V : Type ℓ} where
  pub get-insert :
      (k j : Text) (v : V) (m : Map V)
      → get j (insert k v m) ≡ (if text_eq k j then some v else get j m)
  unfolding get insert
  get-insert k j v [] = refl
  get-insert k j v ((i, w) ∷ m) =
      ground (arith, text_eq_iff k j, text_eq_iff i k, text_eq_iff i j, get-insert k j v m)

  pub get-remove :
      (k j : Text) (m : Map V) → get j (remove k m) ≡ (if text_eq k j then none else get j m)
  unfolding get remove
  get-remove k j [] = ground arith
  get-remove k j ((i, w) ∷ m) =
      ground (arith, text_eq_iff k j, text_eq_iff i k, text_eq_iff i j, get-remove k j m)

  pub insert-Above :
      (i k : Text) (v : V) (m : Map V) → lt_text i k ≡ true → Above i m → Above i (insert k v m)
  unfolding insert
  insert-Above i k v [] h a = (h, tt)
  insert-Above i k v ((j, w) ∷ m) h a = ground (arith, insert-Above i k v m h a.1)

  pub Above-trans : (i k : Text) (m : Map V) → lt_text i k ≡ true → Above k m → Above i m
  Above-trans i k [] h a = tt
  Above-trans i k ((j, w) ∷ m) h a = (lt_text_trans i k j h a.0, Above-trans i k m h a.1)

  pub insert-IsSorted : (k : Text) (v : V) (m : Map V) → IsSorted m → IsSorted (insert k v m)
  unfolding insert
  insert-IsSorted k v [] s = (tt, tt)
  insert-IsSorted k v ((j, w) ∷ m) s = ground (
    arith,
    text_eq_iff j k,
    lt_text_total k j,
    insert-IsSorted k v m s.1,
    insert-Above j k v m,
    Above-trans k j m,
  )

  pub remove-Above : (i k : Text) (m : Map V) → Above i m → Above i (remove k m)
  unfolding remove
  remove-Above i k [] a = tt
  remove-Above i k ((j, w) ∷ m) a = ground (arith, remove-Above i k m a.1)

  pub remove-IsSorted : (k : Text) (m : Map V) → IsSorted m → IsSorted (remove k m)
  unfolding remove
  remove-IsSorted k [] s = tt
  remove-IsSorted k ((j, w) ∷ m) s = ground (arith, remove-IsSorted k m s.1, remove-Above j k m s.0)

  pub get-Above : (k : Text) (m : Map V) → Above k m → get k m ≡ none
  unfolding get
  get-Above k [] a = refl
  get-Above k ((j, w) ∷ m) a = ground (arith, text_eq_iff j k, lt_text_irrefl k, get-Above k m a.1)

  -- A map is determined by its lookups.
  pub ext-head :
      (i j : Text) (v w : V) (m n : Map V)
      → IsSorted ((i, v) ∷ m)
      → IsSorted ((j, w) ∷ n)
      → ((k : Text) → get k ((i, v) ∷ m) ≡ get k ((j, w) ∷ n))
      → (i ≡ j) × (v ≡ w)
  unfolding get
  ext-head i j v w m n s t h = ground (
    arith,
    h i,
    h j,
    text_eq_iff i j,
    text_eq_iff j i,
    text_eq_refl i,
    text_eq_refl j,
    lt_text_total i j,
    get-Above i n,
    get-Above j m,
    Above-trans i j n,
    Above-trans j i m,
  )

  ext-tail :
      (i j k : Text) (v w : V) (m n : Map V)
      → i ≡ j
      → Above i m
      → Above j n
      → get k ((i, v) ∷ m) ≡ get k ((j, w) ∷ n)
      → get k m ≡ get k n
  unfolding get
  ext-tail i j k v w m n e a b h = elim (Bool-cases (text_eq i k)) [
    | inl hit ↦
        let e' : i ≡ k = (text_eq_iff i k).0 hit in cc (e, e', get-Above i m a, get-Above j n b)
    | inr miss ↦ ground (arith, miss, e)
  ]

  pub Map-ext : (m n : Map V) → IsSorted m → IsSorted n → ((k : Text) → get k m ≡ get k n) → m ≡ n
  unfolding get
  Map-ext [] [] s t h = refl
  Map-ext [] ((j, w) ∷ n) s t h = ground (arith, h j, text_eq_refl j)
  Map-ext ((i, v) ∷ m) [] s t h = ground (arith, h i, text_eq_refl i)
  Map-ext ((i, v) ∷ m) ((j, w) ∷ n) s t h =
      let heads = ext-head i j v w m n s t h in
      let tails = Map-ext m n s.1 t.1 (λ k. ext-tail i j k v w m n heads.0 s.0 t.0 (h k)) in
      cc (heads.0, heads.1, tails)

module _ {ℓ} {V : Type ℓ} (P : Text × V → Type 0) where
  pub All-insert : (k : Text) (v : V) (m : Map V) → P (k, v) → All P m → All P (insert k v m)
  unfolding insert
  All-insert k v [] h a = (h, tt)
  All-insert k v ((j, w) ∷ m) h a = ground (arith, All-insert k v m h a.1)
