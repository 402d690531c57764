-- ===== src/Postgres/Outbox/History/Settled.antt =====
-- crates/postgres/src/outbox.rs: what never changes again in the table.
use sisa_messaging_rs.Prelude.{
  ℕ, ◌≤◌, ◌≡◌, refl, sym, subst, false, List, [], ◌∷◌, arith, inl, inr, ◌∙◌, none,
}
use mathlib.Core.List.{Memᴰ}
use mathlib.Core.List.Memᴰ
use sisa_messaging_rs.Postgres.Outbox.{Row, is_pending, pending, Texts}
use sisa_messaging_rs.Postgres.Outbox.Statements.{World, Answers, IsKeyed}
use sisa_messaging_rs.Postgres.Outbox.History.{
  Move, stays, leases, sends, retries, fails, spoils, AllMove, Steps, start, later,
}
use sisa_messaging_rs.Postgres.Outbox.History.Moved.{Step-Moves}

-- What an application wrote in a row: all but what the dispatchers change.
abbrev pub written : Row → Row
written r = record r {
  status = pending;
  available_at = 0;
  attempts = 0;
  last_error = none;
  dispatched_at = none;
}

-- `r'` is the row `r` some time later.
pub record IsLater (r r' : Row) : Type 0 where
  pub same : written r' ≡ written r
  pub attempts : r.attempts ≤ r'.attempts
  pub settled : is_pending r.status ≡ false → r' ≡ r

IsLater-refl : (r : Row) → IsLater r r
IsLater-refl r = record { same = refl; attempts = omega arith; settled = λ h. refl }

IsLater-trans : (a b c : Row) → IsLater a b → IsLater b c → IsLater a c
IsLater-trans a b c f g = record {
  same = g.same ∙ f.same;
  attempts = omega (arith, f.attempts, g.attempts);
  settled = λ h.
      let e = f.settled h in g.settled (subst (λ r. is_pending r.status ≡ false) (sym e) h) ∙ e;
}

Move-IsLater : (now : ℕ) (r r' : Row) → Move now r r' → IsLater r r'
Move-IsLater now r r' (stays _) = IsLater-refl r
Move-IsLater now r r' (leases _ until due long) = record {
  same = refl;
  attempts = omega arith;
  settled = λ h. absurd (ground arith);
}
Move-IsLater now r r' (sends _ p) = record {
  same = refl;
  attempts = omega arith;
  settled = λ h. absurd (cc (h, p));
}
Move-IsLater now r r' (retries _ until error p long) = record {
  same = refl;
  attempts = omega arith;
  settled = λ h. absurd (cc (h, p));
}
Move-IsLater now r r' (fails _ error p) = record {
  same = refl;
  attempts = omega arith;
  settled = λ h. absurd (cc (h, p));
}
Move-IsLater now r r' (spoils _ error p) = record {
  same = refl;
  attempts = omega arith;
  settled = λ h. absurd (cc (h, p));
}

AllMove-IsLater :
    (now : ℕ) (r : Row) (rs rs' : List Row)
    → AllMove now rs rs'
    → Memᴰ r rs
    → (r' : Row) × Memᴰ r' rs' × IsLater r r'
AllMove-IsLater now r [] rs' a m = absurd (Memᴰ.not-nil m)
AllMove-IsLater now r (x ∷ xs) [] a m = absurd a
AllMove-IsLater now r (x ∷ xs) (y ∷ ys) a m = elim (Memᴰ.cases_cons m) [
  | inl e ↦ (y, Memᴰ.head refl, subst (λ z. IsLater z y) (sym e) (Move-IsLater now x y a.0))
  | inr m' ↦ let (z, n, l) = AllMove-IsLater now r xs ys a.1 m' in (z, Memᴰ.tail n, l)
]

module _ (answers : Answers) (texts : Texts) where
  Steps-IsKeyed : (w w' : World) → IsKeyed w.rows → Steps answers texts w w' → IsKeyed w'.rows
  Steps-IsKeyed w w' keyed start = keyed
  Steps-IsKeyed w w' keyed (later {v = v} steps s) =
      (Step-Moves answers texts v w' (Steps-IsKeyed w v keyed steps) s).keyed

  -- Whatever statements run, in any order, each row of a table whose keys are distinct is still there,
  -- with all that the application wrote in it and no fewer failed attempts; and a row that is not
  -- pending, so dispatched or failed, is unchanged.
  pub Steps-IsLater :
      (w w' : World) (r : Row)
      → IsKeyed w.rows
      → Steps answers texts w w'
      → Memᴰ r w.rows
      → (r' : Row) × Memᴰ r' w'.rows × IsLater r r'
  Steps-IsLater w w' r keyed start m = (r, m, IsLater-refl r)
  Steps-IsLater w w' r keyed (later {v = v} steps s) m =
      let (a, n, l) = Steps-IsLater w v r keyed steps m in
      let moves = Step-Moves answers texts v w' (Steps-IsKeyed w v keyed steps) s in
      let (b, o, k) = AllMove-IsLater (answers.now v.tick) a v.rows moves.olds moves.moved n in
      (
        b,
        subst (Memᴰ b) (sym moves.split) (Memᴰ.append_right moves.news o),
        IsLater-trans r a b l k,
      )
