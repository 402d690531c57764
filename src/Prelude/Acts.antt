-- ===== src/Prelude/Acts.antt =====
-- Effects: an action takes the state of the world and gives its answer with the state that follows.
-- The code is written over any `W`, so an answer may depend on everything that came before, on
-- other tasks included.
use sisa_messaging_rs.Prelude.{◌≡◌, refl, Result, ok, err}

abbrev pub Act : Type 0 → Type 0 → Type 0
Act W A = W → A × W

abbrev pub pure : {W A : Type 0} → A → Act W A
pure a w = (a, w)

infixl 5 ◌>>=◌ ◌>>◌
abbrev pub ◌>>=◌ : {W A B : Type 0} → Act W A → (A → Act W B) → Act W B
◌>>=◌ m f w = let (a, w') = m w in f a w'

abbrev pub ◌>>◌ : {W A B : Type 0} → Act W A → Act W B → Act W B
m >> k = m >>= λ _. k

-- `?` after an `await`: the rest runs on a success only.
infixl 5 ◌>>?◌
abbrev pub ◌>>?◌ :
    {W E A B : Type 0} → Act W (Result E A) → (A → Act W (Result E B)) → Act W (Result E B)
m >>? f = m >>= λ r. elim r [ ok a ↦ f a | err e ↦ pure (err e) ]

-- Reasoning about `>>?` by what its first action answers.
pub >>?-cases :
    {W E A B : Type 0} (P : Result E B × W → Type 0) (m : Act W (Result E A))
    (f : A → Act W (Result E B)) (w : W)
    → ((a : A) → (m w).0 ≡ ok a → P (f a (m w).1))
    → ((e : E) → (m w).0 ≡ err e → P (err e, (m w).1))
    → P ((m >>? f) w)
>>?-cases {E = E} {A = A} P m f w good bad = go (m w).0 refl
  where
    go : (r : Result E A) → (m w).0 ≡ r → P ((m >>? f) w)
    go (ok a) e = rw (◌>>?◌, e) (good a e)
    go (err x) e = rw (◌>>?◌, e) (bad x e)
