-- ===== src/Nats/Subjects.antt =====
-- crates/nats/src/transport.rs and crates/nats/src/subscribe.rs: the subjects of messages and the
-- error subjects, which share a prefix.
use sisa_messaging_rs.Prelude.{
  ℕ, subst, inl, inr, ◌⊎◌, ◌≤◌, ◌≡◌, refl, sym, ap, ◌∙◌, ◌↔◌, [], ◌∷◌, ◌++◌, ok, arith,
}
use sisa_messaging_rs.Prelude.Lists.{length, All}
use sisa_messaging_rs.Prelude.Text.{Text, codes}
use sisa_messaging_rs.Core.MessageType.{MessageType, check_message_type, split}
use sisa_messaging_rs.Core.MessageType.Grammar.{
  IsLevels, version, level, IsAllowed, IsDigit, IsWord,
}
use sisa_messaging_rs.Core.MessageType.Grammar.Split.{joined, split-joined, split-dot}
use sisa_messaging_rs.Core.MessageType.Grammar.Accepted.{check_message_type_iff}
use sisa_messaging_rs.Nats.{NatsSettings, subject, error_subject}

append-cancel : (p s t : Text) → p ++ s ≡ p ++ t → s ≡ t
append-cancel [] s t h = h
append-cancel (c ∷ p) s t h = append-cancel p s t (cc)

-- What follows the first level is determined.
level-cancel :
    (l m r s : Text) → All IsAllowed l → All IsAllowed m → l ++ (b'.' ∷ r) ≡ m ++ (b'.' ∷ s) → r ≡ s
level-cancel l m r s hl hm h =
    let e : l ∷ split b'.' r ≡ m ∷ split b'.' s =
      sym (split-dot l r hl) ∙ ap (split b'.') h ∙ split-dot m s hm in
    let tails : split b'.' r ≡ split b'.' s = cc in
    sym (split-joined r) ∙ ap joined tails ∙ split-joined s

-- A `v` and digits.
abbrev pub IsVersion : Text → Type 0
IsVersion s = (digits : Text) × (s ≡ b'v' ∷ digits) × IsWord IsDigit digits

abbrev error_level : Text
error_level = codes "_error"

error_level-IsWord : IsWord IsAllowed error_level
error_level-IsWord = (cc, omega arith)

error-IsLevels :
    (endpoint s : Text)
    → s ≡ error_level ++ (b'.' ∷ endpoint)
    → IsLevels s
    → IsVersion endpoint ⊎ IsLevels endpoint
error-IsLevels endpoint s h (version {level = l} {digits = digits} w d e) = inl (
  digits,
  sym (level-cancel l error_level (b'v' ∷ digits) endpoint w.1 error_level-IsWord.1 (sym e ∙ h)),
  d,
)
error-IsLevels endpoint s h (level {level = l} {rest = rest} w r e) = inr (
    subst (λ (x : Text). IsLevels x)
      (level-cancel l error_level rest endpoint w.1 error_level-IsWord.1 (sym e ∙ h)) r)

IsLevels-error :
    (endpoint : Text)
    → IsVersion endpoint ⊎ IsLevels endpoint
    → IsLevels (error_level ++ (b'.' ∷ endpoint))
IsLevels-error endpoint (inl (digits, e, d)) =
    version error_level-IsWord d (ap (λ (x : Text). error_level ++ (b'.' ∷ x)) e)
IsLevels-error endpoint (inr r) = level error_level-IsWord r refl

-- The error subject of an endpoint is also the subject of a message type that passes its check
-- exactly when the endpoint's name is at most 242 characters long and is a `v` and digits, or levels
-- that end with one, as a message type is.
pub error_subject_iff :
    (settings : NatsSettings) (endpoint : Text)
    → ((t : MessageType) × (check_message_type t.value ≡ ok tt)
        × (subject settings t ≡ error_subject settings endpoint))
      ↔ ((IsVersion endpoint ⊎ IsLevels endpoint) × (length endpoint ≤ 242))
unfolding subject error_subject
error_subject_iff settings endpoint =
    let typed = error_level ++ (b'.' ∷ endpoint) in
    (
      λ (t, passed, same).
          let dotted : b'.' ∷ t.value ≡ b'.' ∷ typed =
            append-cancel settings.prefix (b'.' ∷ t.value) (b'.' ∷ typed) same in
          let e : t.value ≡ typed = cc in
          let (levels, short) = (check_message_type_iff t.value).0 passed in
          (error-IsLevels endpoint t.value e levels, omega (arith, ap (length {A = ℕ}) e)),
      λ (named, short). (
        record { value = typed },
        (check_message_type_iff typed).1 (IsLevels-error endpoint named, omega arith),
        refl,
      ),
    )
