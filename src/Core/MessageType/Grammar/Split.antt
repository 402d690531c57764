-- ===== src/Core/MessageType/Grammar/Split.antt =====
-- crates/core/src/message.rs: what `split` and `bytes` give on the characters of a message type.
use sisa_messaging_rs.Prelude.{
  ℕ, ◌≡◌, refl, sym, subst, ◌↔◌, inl, inr, true, false, List, [], ◌∷◌, ◌++◌, ltb, ◌==◌, arith,
  Bool-cases, ==_iff,
}
use sisa_messaging_rs.Prelude.Lists.{all_of, All}
use sisa_messaging_rs.Prelude.Text.{Text, utf8, bytes}
use sisa_messaging_rs.Core.MessageType.{split, split_level}
use sisa_messaging_rs.Core.MessageType.Grammar.{IsAllowed, is_part, IsPart}

abbrev pub joined : List Text → Text
joined [] = []
joined (l ∷ []) = l
joined (l ∷ (m ∷ ls)) = l ++ (b'.' ∷ joined (m ∷ ls))

is_part_iff : (c : ℕ) → (is_part c ≡ true) ↔ IsPart c
is_part_iff c = (λ h. ground arith, λ h. ground arith)

IsAllowed-dot : (c : ℕ) → IsAllowed c → (c == b'.') ≡ false
IsAllowed-dot c h = ground arith

IsPart-other : (c : ℕ) → IsPart c → (c == b'.') ≡ false → IsAllowed c
IsPart-other c p f = ground arith

utf8-is_part :
    (c : ℕ) (rest : List ℕ)
    → all_of is_part (utf8 c ++ rest) ≡ true
    → (utf8 c ≡ c ∷ []) × IsPart c × (all_of is_part rest ≡ true)
utf8-is_part c rest h = elim (Bool-cases (ltb c 0x80)) [
  | inl e ↦ ground arith
  | inr e ↦ ground arith
]

utf8_small : (c : ℕ) → IsPart c → utf8 c ≡ c ∷ []
utf8_small c h = ground arith

-- The bytes of a text pass exactly when its characters do: a byte of a longer encoding is none.
pub is_part-bytes : (s : Text) → all_of is_part (bytes s) ≡ true → (bytes s ≡ s) × All IsPart s
unfolding bytes
is_part-bytes [] h = (refl, tt)
is_part-bytes (c ∷ s) h =
    let (e, p, rest) = utf8-is_part c (bytes s) h in
    let (es, ps) = is_part-bytes s rest in (rw (e, es) refl, (p, ps))

pub bytes-is_part : (s : Text) → All IsPart s → (bytes s ≡ s) × (all_of is_part s ≡ true)
unfolding bytes
bytes-is_part [] h = (refl, refl)
bytes-is_part (c ∷ s) (p, ps) =
    let (e, h) = bytes-is_part s ps in (rw (utf8_small c p, e) refl, rw ((is_part_iff c).1 p) h)

split-cons : (s : Text) → (l : Text) × (ls : List Text) × (split b'.' s ≡ l ∷ ls)
unfolding split split_level
split-cons [] = ([], [], refl)
split-cons (c ∷ s) =
    let (l, ls, e) = split-cons s in
    elim (Bool-cases (c == b'.')) [
      | inl t ↦ ([], l ∷ ls, rw (t, e) refl)
      | inr f ↦ (c ∷ l, ls, rw (f, e) refl)
    ]

joined-cons : (c : ℕ) (l : Text) (ls : List Text) → joined ((c ∷ l) ∷ ls) ≡ c ∷ joined (l ∷ ls)
joined-cons c l [] = refl
joined-cons c l (m ∷ ls) = refl

pub split-joined : (s : Text) → joined (split b'.' s) ≡ s
unfolding split split_level
split-joined [] = refl
split-joined (c ∷ s) =
    let (l, ls, e) = split-cons s in
    let ih : joined (l ∷ ls) ≡ s = rw (sym e) (split-joined s) in
    elim (Bool-cases (c == b'.')) [
      | inl t ↦ rw (t, e) (cc (ih, (==_iff c b'.').0 t))
      | inr f ↦ rw (f, e, joined-cons c l ls, ih) refl
    ]

pub split-IsAllowed : (s : Text) → All IsPart s → All (All IsAllowed) (split b'.' s)
unfolding split split_level
split-IsAllowed [] h = (tt, tt)
split-IsAllowed (c ∷ s) (p, ps) =
    let (l, ls, e) = split-cons s in
    let (h, hs) = subst (λ (x : List Text). All (All IsAllowed) x) e (split-IsAllowed s ps) in
    elim (Bool-cases (c == b'.')) [
      | inl t ↦ rw (t, e) (tt, (h, hs))
      | inr f ↦ rw (f, e) ((IsPart-other c p f, h), hs)
    ]

pub split-word : (l : Text) → All IsAllowed l → split b'.' l ≡ l ∷ []
unfolding split split_level
split-word [] h = refl
split-word (c ∷ l) (p, ps) = rw (IsAllowed-dot c p, split-word l ps) refl

pub split-dot : (l s : Text) → All IsAllowed l → split b'.' (l ++ (b'.' ∷ s)) ≡ l ∷ split b'.' s
unfolding split split_level
split-dot [] s h = refl
split-dot (c ∷ l) s (p, ps) = rw (IsAllowed-dot c p, split-dot l s ps) refl
