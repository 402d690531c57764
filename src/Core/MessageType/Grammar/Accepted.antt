-- ===== src/Core/MessageType/Grammar/Accepted.antt =====
-- crates/core/src/message.rs: `check_message_type` passes the grammar's texts, and no others.
use sisa_messaging_rs.Prelude.{
  ℕ, ◌≤◌, ◌<◌, ◌≡◌, ◌≢◌, refl, sym, subst, ap, ◌↔◌, inl, inr, true, false, List, [], ◌∷◌, ◌++◌,
  some, ok, ◌==◌, arith, Bool-cases, ==_iff,
}
use sisa_messaging_rs.Prelude.Lists.{length, all_of, any_of, last_of, All}
use sisa_messaging_rs.Prelude.Text.{Text, bytes, is_digit}
use sisa_messaging_rs.Core.MessageType.{check_message_type, split, is_empty, is_version, version_of}
use sisa_messaging_rs.Core.MessageType.Grammar.{
  IsDigit, IsAllowed, IsWord, IsLevels, version, level, is_part, IsPart,
}
use sisa_messaging_rs.Core.MessageType.Grammar.Split.{
  joined, is_part-bytes, bytes-is_part, split-joined, split-IsAllowed, split-word, split-dot,
}

All-IsPart : (s : Text) → All IsAllowed s → All IsPart s
All-IsPart [] h = tt
All-IsPart (c ∷ s) (p, ps) = (inl p, All-IsPart s ps)

All-IsAllowed : (s : Text) → All IsDigit s → All IsAllowed s
All-IsAllowed [] h = tt
All-IsAllowed (c ∷ s) (p, ps) = (inr (inl p), All-IsAllowed s ps)

digits-All : (s : Text) → all_of is_digit s ≡ true → All IsDigit s
digits-All [] h = tt
digits-All (c ∷ s) h = (ground arith, digits-All s (ground arith))

All-digits : (s : Text) → All IsDigit s → all_of is_digit s ≡ true
All-digits [] h = refl
All-digits (c ∷ s) (p, ps) = let ih = All-digits s ps in ground arith

IsWord-nonempty : (s : Text) → is_empty s ≡ false → s ≢ []
IsWord-nonempty [] h = cc
IsWord-nonempty (c ∷ s) h = cc

digits-IsWord : (s : Text) → All IsAllowed s → is_version (some s) ≡ true → IsWord IsDigit s
digits-IsWord s h v =
    let (e, _) = bytes-is_part s (All-IsPart s h) in
    let d = rw e at v in (IsWord-nonempty s (ground arith), digits-All s (ground arith))

IsWord-digits : (s : Text) → IsWord IsDigit s → is_version (some s) ≡ true
IsWord-digits [] (ne, _) = absurd (ne refl)
IsWord-digits (c ∷ s) (_, h) =
    let (e, _) = bytes-is_part (c ∷ s) (All-IsPart (c ∷ s) (All-IsAllowed (c ∷ s) h)) in
    rw e (All-digits (c ∷ s) h)

version-level :
    (m : Text)
    → All IsAllowed m
    → is_version (version_of (some m)) ≡ true
    → (digits : Text) × (m ≡ b'v' ∷ digits) × IsWord IsDigit digits
version-level [] h v = absurd (cc)
version-level (c ∷ s) (p, ps) v = elim (Bool-cases (c == b'v')) [
  | inl t ↦ (s, ap (λ (x : ℕ). x ∷ s) ((==_iff c b'v').0 t), digits-IsWord s ps (rw t at v))
  | inr f ↦ absurd (cc (rw f at v))
]

proper-IsLevels :
    (l m : Text) (ls : List Text)
    → All (All IsAllowed) (l ∷ (m ∷ ls))
    → any_of is_empty (l ∷ (m ∷ ls)) ≡ false
    → is_version (version_of (last_of (m ∷ ls))) ≡ true
    → IsLevels (joined (l ∷ (m ∷ ls)))
proper-IsLevels l m [] (h, (hm, _)) e v =
    let (digits, em, w) = version-level m hm v in
    version (IsWord-nonempty l (ground arith), h) w (ap (λ (x : Text). l ++ (b'.' ∷ x)) em)
proper-IsLevels l m (k ∷ ls) (h, hs) e v =
    level (IsWord-nonempty l (ground arith), h) (proper-IsLevels m k ls hs (ground arith) v) refl

-- What the tests of `check_message_type` see of a text, apart from its length.
record Passes (s : Text) : Type 0 where
  parts : All IsPart s
  two : 1 < length (split b'.' s)
  full : any_of is_empty (split b'.' s) ≡ false
  versioned : is_version (version_of (last_of (split b'.' s))) ≡ true

All-append : (l s : Text) → All IsPart l → All IsPart s → All IsPart (l ++ s)
All-append [] s h hs = hs
All-append (c ∷ l) s (p, h) hs = (p, All-append l s h hs)

IsWord-level : (l : Text) → IsWord IsAllowed l → is_empty l ≡ false
IsWord-level [] (ne, _) = absurd (ne refl)
IsWord-level (c ∷ l) h = refl

last-two : (l : Text) (ls : List Text) → 1 < length ls → last_of (l ∷ ls) ≡ last_of ls
last-two l [] h = absurd (omega arith)
last-two l (m ∷ ls) h = refl

version-Passes :
    (l digits : Text)
    → IsWord IsAllowed l
    → IsWord IsDigit digits
    → Passes (l ++ (b'.' ∷ b'v' ∷ digits))
version-Passes l digits w d =
    let hv : All IsAllowed (b'v' ∷ digits) = (omega arith, All-IsAllowed digits d.1) in
    let e : split b'.' (l ++ (b'.' ∷ b'v' ∷ digits)) ≡ l ∷ (b'v' ∷ digits) ∷ [] =
      rw (split-dot l (b'v' ∷ digits) w.1, split-word (b'v' ∷ digits) hv) refl in
    record {
      parts =
          All-append l (b'.' ∷ b'v' ∷ digits) (All-IsPart l w.1)
            (inr refl, All-IsPart (b'v' ∷ digits) hv);
      two = rw e (omega arith);
      full = rw (e, IsWord-level l w) refl;
      versioned = rw e (IsWord-digits digits d);
    }

level-Passes : (l rest : Text) → IsWord IsAllowed l → Passes rest → Passes (l ++ (b'.' ∷ rest))
level-Passes l rest w r =
    let e = split-dot l rest w.1 in
    record {
      parts = All-append l (b'.' ∷ rest) (All-IsPart l w.1) (inr refl, r.parts);
      two = rw e (omega (arith, r.two));
      full = rw (e, IsWord-level l w) r.full;
      versioned = rw (e, last-two l (split b'.' rest) r.two) r.versioned;
    }

IsLevels-Passes : {s : Text} → IsLevels s → Passes s
IsLevels-Passes (version {level} {digits} w d e) =
    subst (λ (x : Text). Passes x) (sym e) (version-Passes level digits w d)
IsLevels-Passes (level {level} {rest} w r e) =
    subst (λ (x : Text). Passes x) (sym e) (level-Passes level rest w (IsLevels-Passes r))

joined-IsLevels :
    (levels : List Text)
    → All (All IsAllowed) levels
    → 1 < length levels
    → any_of is_empty levels ≡ false
    → is_version (version_of (last_of levels)) ≡ true
    → IsLevels (joined levels)
joined-IsLevels [] h two e v = absurd (omega arith)
joined-IsLevels (l ∷ []) h two e v = absurd (omega arith)
joined-IsLevels (l ∷ (m ∷ ls)) h two e v = proper-IsLevels l m ls h e v

Passes-IsLevels : (s : Text) → Passes s → IsLevels s
Passes-IsLevels s h =
    subst (λ (x : Text). IsLevels x) (split-joined s)
      (joined-IsLevels (split b'.' s) (split-IsAllowed s h.parts) h.two h.full h.versioned)

check-Passes : (s : Text) → check_message_type s ≡ ok tt → Passes s × (length (bytes s) ≤ 249)
unfolding check_message_type
check-Passes s h =
    let all : all_of is_part (bytes s) ≡ true = ground arith in
    (
      record {
        parts = (is_part-bytes s all).1;
        two = ground arith;
        full = ground arith;
        versioned = ground arith;
      },
      ground arith,
    )

Passes-check : (s : Text) → Passes s → length s ≤ 249 → check_message_type s ≡ ok tt
unfolding check_message_type
Passes-check s h short =
    let (e, all) = bytes-is_part s h.parts in rw e (ground (arith, h.two, h.full, h.versioned))

-- A message type passes exactly when it is at most 249 characters long and its text is of the
-- grammar: levels joined by `.`, each of lowercase letters, digits and `_` and none empty, at least
-- two of them, the last a `v` and digits.
pub check_message_type_iff :
    (s : Text) → (check_message_type s ≡ ok tt) ↔ (IsLevels s × (length s ≤ 249))
check_message_type_iff s = (
  λ h.
      let (p, short) = check-Passes s h in
      (Passes-IsLevels s p, rw (sym (bytes-is_part s p.parts).0) short),
  λ (h, short). Passes-check s (IsLevels-Passes h) short,
)
