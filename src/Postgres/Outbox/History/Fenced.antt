-- ===== src/Postgres/Outbox/History/Fenced.antt =====
-- crates/postgres/src/outbox.rs: the due time in a mark's `WHERE` clause fences off a dispatcher
-- whose lease ran out.
use sisa_messaging_rs.Prelude.{
  ℕ, suc, ◌<◌, ◌≤◌, ◌≡◌, refl, ◌∙◌, Bool, true, false, ◌&&◌, List, [], ◌∷◌, ◌++◌, arith, ◌==◌,
  String,
}
use sisa_messaging_rs.Prelude.Lists.{All, any_of}
use sisa_messaging_rs.Postgres.Outbox.{Row, is_pending, Texts}
use sisa_messaging_rs.Postgres.Outbox.Statements.{
  World, Answers, Outcome, done, done_unseen, not_done, Claim, same_key, IsKeyed, execute, lease,
  mark_unreadable, mark_dispatched, mark_retry, mark_failed,
}
use sisa_messaging_rs.Postgres.Outbox.History.{
  Move, stays, leases, sends, retries, fails, spoils, AllMove, Step, lease_step, unreadable_step,
  dispatched_step, retry_step, failed_step, commit_step, Steps, start, later,
}
use sisa_messaging_rs.Postgres.Outbox.History.Moved.{Step-Moves}

abbrev pub has_key : Claim → Row → Bool
has_key c r = (r.created_at == c.created_at) && (r.id == c.id)

-- While the row of the claim is pending, it is due only later than the claim said.
abbrev pub IsAfter : Claim → Row → Type 0
IsAfter c r = has_key c r ≡ true → is_pending r.status ≡ true → c.leased_until < r.available_at

-- A claim that ran out, of a row that was claimed again since or is no longer pending.
pub record IsStale (answers : Answers) (c : Claim) (w : World) : Type 0 where
  pub past : c.leased_until ≤ answers.now w.tick
  pub present : any_of (has_key c) w.rows ≡ true
  pub after : All (IsAfter c) w.rows

Move-IsAfter :
    (now : ℕ) (c : Claim) (r r' : Row)
    → c.leased_until ≤ now
    → Move now r r'
    → IsAfter c r
    → IsAfter c r'
Move-IsAfter now c r r' past (stays _) a = a
Move-IsAfter now c r r' past (leases _ until due long) a = λ k p. omega arith
Move-IsAfter now c r r' past (sends _ h) a = λ k p. absurd (cc p)
Move-IsAfter now c r r' past (retries _ until error h long) a = λ k p. omega arith
Move-IsAfter now c r r' past (fails _ error h) a = λ k p. absurd (cc p)
Move-IsAfter now c r r' past (spoils _ error h) a = λ k p. absurd (cc p)

Move-has_key : (now : ℕ) (c : Claim) (r r' : Row) → Move now r r' → has_key c r' ≡ has_key c r
Move-has_key now c r r' (stays _) = refl
Move-has_key now c r r' (leases _ until due long) = refl
Move-has_key now c r r' (sends _ h) = refl
Move-has_key now c r r' (retries _ until error h long) = refl
Move-has_key now c r r' (fails _ error h) = refl
Move-has_key now c r r' (spoils _ error h) = refl

AllMove-has_key :
    (now : ℕ) (c : Claim) (rs rs' : List Row)
    → AllMove now rs rs'
    → any_of (has_key c) rs' ≡ any_of (has_key c) rs
AllMove-has_key now c [] [] a = refl
AllMove-has_key now c [] (y ∷ ys) a = absurd a
AllMove-has_key now c (x ∷ xs) [] a = absurd a
AllMove-has_key now c (x ∷ xs) (y ∷ ys) a =
    rw (Move-has_key now c x y a.0, AllMove-has_key now c xs ys a.1) refl

AllMove-IsAfter :
    (now : ℕ) (c : Claim) (rs rs' : List Row)
    → c.leased_until ≤ now
    → AllMove now rs rs'
    → All (IsAfter c) rs
    → All (IsAfter c) rs'
AllMove-IsAfter now c [] [] past m a = tt
AllMove-IsAfter now c [] (y ∷ ys) past m a = absurd m
AllMove-IsAfter now c (x ∷ xs) [] past m a = absurd m
AllMove-IsAfter now c (x ∷ xs) (y ∷ ys) past m a =
    (Move-IsAfter now c x y past m.0 a.0, AllMove-IsAfter now c xs ys past m.1 a.1)

any_of-append_right :
    (p : Row → Bool) (xs ys : List Row) → any_of p ys ≡ true → any_of p (xs ++ ys) ≡ true
any_of-append_right p [] ys h = h
any_of-append_right p (x ∷ xs) ys h = let ih = any_of-append_right p xs ys h in ground arith

-- A row whose key is not in the table is not the row of a claim that is in the table.
fresh-has_key :
    (c : Claim) (r : Row) (rs : List Row)
    → any_of (same_key r) rs ≡ false
    → any_of (has_key c) rs ≡ true
    → has_key c r ≡ false
fresh-has_key c r [] f h = absurd (cc h)
fresh-has_key c r (x ∷ rs) f h = ground (arith, fresh-has_key c r rs)

fresh-IsAfter :
    (c : Claim) (news rs olds : List Row)
    → any_of (has_key c) rs ≡ true
    → All (λ r. any_of (same_key r) rs ≡ false) news
    → All (IsAfter c) olds
    → All (IsAfter c) (news ++ olds)
fresh-IsAfter c [] rs olds h f a = a
fresh-IsAfter c (r ∷ news) rs olds h f a =
    (λ k p. absurd (cc (k, fresh-has_key c r rs f.0 h)), fresh-IsAfter c news rs olds h f.1 a)

module _ (answers : Answers) where
  pub execute-tick :
      {A : Type 0} (context : String) (a : A) (rs : List Row) (w : World)
      → (execute answers context a rs w).1.tick ≡ suc w.tick
  unfolding execute
  execute-tick context a rs w = by_outcome (answers.ends w) refl
    where
      by_outcome :
          (o : Outcome) → answers.ends w ≡ o → (execute answers context a rs w).1.tick ≡ suc w.tick
      by_outcome done e = rw (execute, e) refl
      by_outcome (done_unseen x) e = rw (execute, e) refl
      by_outcome (not_done x) e = rw (execute, e) refl

module _ (answers : Answers) (texts : Texts) where
  Step-tick : (w w' : World) → Step answers texts w w' → w'.tick ≡ suc w.tick
  unfolding lease mark_unreadable mark_dispatched mark_retry mark_failed
  Step-tick w w' (lease_step _ limit length long) = execute-tick answers _ _ _ w
  Step-tick w w' (unreadable_step _ r error) = execute-tick answers _ _ _ w
  Step-tick w w' (dispatched_step _ rs) = execute-tick answers _ _ _ w
  Step-tick w w' (retry_step _ r error delay long) = execute-tick answers _ _ _ w
  Step-tick w w' (failed_step _ r error) = execute-tick answers _ _ _ w
  Step-tick w w' (commit_step _ t whole) = refl

  module _ (clock : (n : ℕ) → answers.now n ≤ answers.now (suc n)) where
    Step-IsStale :
        (c : Claim) (w w' : World)
        → IsKeyed w.rows
        → Step answers texts w w'
        → IsStale answers c w
        → IsStale answers c w'
    Step-IsStale c w w' keyed s stale =
        let m = Step-Moves answers texts w w' keyed s in
        record {
          past = rw (Step-tick w w' s) (omega (arith, clock w.tick, stale.past));
          present = rw m.split (
              any_of-append_right (has_key c) m.news m.olds
                (AllMove-has_key (answers.now w.tick) c w.rows m.olds m.moved ∙ stale.present));
          after = rw m.split (
              fresh-IsAfter c m.news w.rows m.olds stale.present m.fresh (
                AllMove-IsAfter (answers.now w.tick) c w.rows m.olds stale.past m.moved
                  stale.after));
        }

    pub Steps-IsStale :
        (c : Claim) (w w' : World)
        → IsKeyed w.rows
        → Steps answers texts w w'
        → IsStale answers c w
        → IsKeyed w'.rows × IsStale answers c w'
    Steps-IsStale c w w' keyed start stale = (keyed, stale)
    Steps-IsStale c w w' keyed (later {v = v} steps s) stale =
        let (k, st) = Steps-IsStale c w v keyed steps stale in
        ((Step-Moves answers texts v w' k s).keyed, Step-IsStale c v w' k s st)
