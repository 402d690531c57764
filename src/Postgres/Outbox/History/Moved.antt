-- ===== src/Postgres/Outbox/History/Moved.antt =====
-- crates/postgres/src/outbox.rs: each statement moves the rows along their life.
use sisa_messaging_rs.Prelude.{
  ℕ, ◌+◌, ◌≡◌, refl, ◌∙◌, sym, subst, Bool, true, false, List, [], ◌∷◌, ◌++◌, arith, Bool-cases,
  inl, inr, String,
}
use sisa_messaging_rs.Prelude.Lists.{All, any_of}
use sisa_messaging_rs.Prelude.Text.{codes}
use sisa_messaging_rs.Core.Store.{OutboxRecord}
use mathlib.Core.List.{Memᴰ}
use mathlib.Core.List.Memᴰ
use sisa_messaging_rs.Postgres.Outbox.{Row, is_pending, Texts}
use sisa_messaging_rs.Postgres.Outbox.Selected.{any_of-Memᴰ, Memᴰ-any_of, select_due-IsSelection}
use sisa_messaging_rs.Postgres.Outbox.Statements.{
  World, Answers, Outcome, done, done_unseen, not_done, Claim, is_claimed, claim_of, claim_of_row,
  same_key, IsKeyed, update, is_due, leased, set_dispatched, set_retry, set_failed, set_unreadable,
  execute, select_due, lease_rows, returned_rows, lease, mark_unreadable, mark_dispatched,
  mark_retry, mark_failed,
}
use sisa_messaging_rs.Postgres.Outbox.History.{
  Move, stays, leases, sends, retries, fails, spoils, AllMove, Moves, Step, lease_step,
  unreadable_step, dispatched_step, retry_step, failed_step, commit_step,
}

all_stay : (now : ℕ) (rs : List Row) → AllMove now rs rs
all_stay now [] = tt
all_stay now (r ∷ rs) = (stays r, all_stay now rs)

update-AllMove :
    (now : ℕ) (p : Row → Bool) (f : Row → Row) (rs : List Row)
    → ((r : Row) → Memᴰ r rs → p r ≡ true → Move now r (f r))
    → AllMove now rs (update p f rs)
update-AllMove now p f [] h = tt
update-AllMove now p f (r ∷ rs) h =
    let below = update-AllMove now p f rs (λ x m q. h x (Memᴰ.tail m) q) in
    elim (Bool-cases (p r)) [
      | inl e ↦ rw e (h r (Memᴰ.head refl) e, below)
      | inr e ↦ rw e (stays r, below)
    ]

Move-same_key : (now : ℕ) (a r r' : Row) → Move now r r' → same_key a r' ≡ same_key a r
Move-same_key now a r r' (stays _) = refl
Move-same_key now a r r' (leases _ until due long) = refl
Move-same_key now a r r' (sends _ h) = refl
Move-same_key now a r r' (retries _ until error h long) = refl
Move-same_key now a r r' (fails _ error h) = refl
Move-same_key now a r r' (spoils _ error h) = refl

same_key-Move : (now : ℕ) (a r r' : Row) → Move now r r' → same_key r' a ≡ same_key r a
same_key-Move now a r r' (stays _) = refl
same_key-Move now a r r' (leases _ until due long) = refl
same_key-Move now a r r' (sends _ h) = refl
same_key-Move now a r r' (retries _ until error h long) = refl
same_key-Move now a r r' (fails _ error h) = refl
same_key-Move now a r r' (spoils _ error h) = refl

any_same_key :
    (now : ℕ) (r r' : Row) (rs rs' : List Row)
    → Move now r r'
    → AllMove now rs rs'
    → any_of (same_key r') rs' ≡ any_of (same_key r) rs
any_same_key now r r' [] [] m a = refl
any_same_key now r r' [] (y ∷ ys) m a = absurd a
any_same_key now r r' (x ∷ xs) [] m a = absurd a
any_same_key now r r' (x ∷ xs) (y ∷ ys) m a =
    rw (same_key-Move now y r r' m, Move-same_key now r x y a.0, any_same_key now r r' xs ys m a.1)
      refl

AllMove-IsKeyed : (now : ℕ) (rs rs' : List Row) → AllMove now rs rs' → IsKeyed rs → IsKeyed rs'
AllMove-IsKeyed now [] [] a k = tt
AllMove-IsKeyed now [] (y ∷ ys) a k = absurd a
AllMove-IsKeyed now (x ∷ xs) [] a k = absurd a
AllMove-IsKeyed now (x ∷ xs) (y ∷ ys) a k =
    (any_same_key now x y xs ys a.0 a.1 ∙ k.0, AllMove-IsKeyed now xs ys a.1 k.1)

olds_only : (now : ℕ) (rs rs' : List Row) → IsKeyed rs → AllMove now rs rs' → Moves now rs rs'
olds_only now rs rs' k m = record {
  news = [];
  olds = rs';
  split = refl;
  moved = m;
  fresh = tt;
  keyed = AllMove-IsKeyed now rs rs' m k;
}

any_of-append :
    (p : Row → Bool) (xs ys : List Row) → any_of p (xs ++ ys) ≡ false → any_of p ys ≡ false
any_of-append p [] ys h = h
any_of-append p (x ∷ xs) ys h = any_of-append p xs ys (ground arith)

appended_fresh :
    (news rs : List Row) → IsKeyed (news ++ rs) → All (λ r. any_of (same_key r) rs ≡ false) news
appended_fresh [] rs k = tt
appended_fresh (r ∷ news) rs k =
    (any_of-append (same_key r) news rs k.0, appended_fresh news rs k.1)

-- Two rows of a table with one key are one row.
pub same_key-eq :
    (rs : List Row) (a b : Row) → IsKeyed rs → Memᴰ a rs → Memᴰ b rs → same_key a b ≡ true → a ≡ b
same_key-eq [] a b k m n h = absurd (Memᴰ.not-nil m)
same_key-eq (r ∷ rs) a b k m n h = elim (Memᴰ.cases_cons m) [
  | inl e ↦ elim (Memᴰ.cases_cons n) [
    | inl f ↦ e ∙ sym f
    | inr n' ↦
        let found = Memᴰ-any_of (same_key r) b rs n' (subst (λ z. same_key z b ≡ true) e h) in
        absurd (cc (found, k.0))
  ]
  | inr m' ↦ elim (Memᴰ.cases_cons n) [
    | inl f ↦
        let h' : same_key a r ≡ true = subst (λ z. same_key a z ≡ true) f h in
        let found = Memᴰ-any_of (same_key r) a rs m' (ground arith) in absurd (cc (found, k.0))
    | inr n' ↦ same_key-eq rs a b k.1 m' n' h
  ]
]

-- The rows that the `UPDATE` of a claim changes are the selected ones.
leased_row-is_due :
    (locked : Row → Bool) (now limit : ℕ) (rs : List Row) (r : Row)
    → IsKeyed rs
    → Memᴰ r rs
    → any_of (same_key r) (select_due locked now limit rs) ≡ true
    → is_due now r ≡ true
leased_row-is_due locked now limit rs r keyed m h =
    let (x, n, q) = any_of-Memᴰ (same_key r) (select_due locked now limit rs) h in
    let (n', due, free) = (select_due-IsSelection locked now limit rs).sound x n in
    subst (λ z. is_due now z ≡ true) (sym (same_key-eq rs r x keyed m n' q)) due

is_claimed-pending : (c : Claim) (r : Row) → is_claimed c r ≡ true → is_pending r.status ≡ true
is_claimed-pending c r h = ground arith

any_claimed-pending :
    (texts : Texts) (cs : List OutboxRecord) (r : Row)
    → any_of (λ c. is_claimed (claim_of texts c) r) cs ≡ true
    → is_pending r.status ≡ true
any_claimed-pending texts [] r h = absurd (cc h)
any_claimed-pending texts (c ∷ cs) r h = elim (Bool-cases (is_claimed (claim_of texts c) r)) [
  | inl e ↦ is_claimed-pending (claim_of texts c) r e
  | inr e ↦ any_claimed-pending texts cs r (rw e at h)
]

module _ (answers : Answers) where
  execute-Moves :
      {A : Type 0} (context : String) (a : A) (rs : List Row) (w : World)
      → IsKeyed w.rows
      → AllMove (answers.now w.tick) w.rows rs
      → Moves (answers.now w.tick) w.rows (execute answers context a rs w).1.rows
  unfolding execute
  execute-Moves {A = A} context a rs w k h = by_outcome (answers.ends w) refl
    where
      by_outcome :
          (o : Outcome)
          → answers.ends w ≡ o
          → Moves (answers.now w.tick) w.rows (execute answers context a rs w).1.rows
      by_outcome done e = rw (execute, e) (olds_only (answers.now w.tick) w.rows rs k h)
      by_outcome (done_unseen x) e = rw (execute, e) (olds_only (answers.now w.tick) w.rows rs k h)
      by_outcome (not_done x) e =
          rw (execute, e)
            (olds_only (answers.now w.tick) w.rows w.rows k (all_stay (answers.now w.tick) w.rows))

  update-Moves :
      {A : Type 0} (context : String) (a : A) (p : Row → Bool) (f : Row → Row) (w : World)
      → IsKeyed w.rows
      → ((r : Row) → Memᴰ r w.rows → p r ≡ true → Move (answers.now w.tick) r (f r))
      → Moves (answers.now w.tick) w.rows (execute answers context a (update p f w.rows) w).1.rows
  update-Moves context a p f w k h =
      execute-Moves context a (update p f w.rows) w k
        (update-AllMove (answers.now w.tick) p f w.rows h)

  -- A statement moves the rows of a table whose keys are distinct along their life: a pending row is
  -- leased when it is due, put back, dispatched or failed, each other row stays as it is, no row goes
  -- away, and a row that a commit adds has a key of its own.
  pub Step-Moves :
      (texts : Texts) (w w' : World)
      → IsKeyed w.rows
      → Step answers texts w w'
      → Moves (answers.now w.tick) w.rows w'.rows
  unfolding lease lease_rows mark_unreadable mark_dispatched mark_retry mark_failed
  Step-Moves texts w w' keyed (lease_step _ limit length long) =
      let now = answers.now w.tick in
      let selected = select_due (answers.locked w) now limit w.rows in
      update-Moves "claiming outbox rows" (returned_rows selected (now + length) w.rows)
        (λ r. any_of (same_key r) selected) (leased (now + length)) w keyed
        (λ r m h.
          leases r (now + length)
            (leased_row-is_due (answers.locked w) now limit w.rows r keyed m h) (omega arith))
  Step-Moves texts w w' keyed (unreadable_step _ r error) =
      let text = codes "not a valid envelope: " ++ error in
      update-Moves "marking an unreadable outbox row failed" tt (is_claimed (claim_of_row texts r))
        (set_unreadable text) w keyed
        (λ x m h. spoils x text (is_claimed-pending (claim_of_row texts r) x h))
  Step-Moves texts w w' keyed (dispatched_step _ rs) =
      update-Moves "marking outbox rows dispatched" tt
        (λ r. any_of (λ c. is_claimed (claim_of texts c) r) rs)
        (set_dispatched (answers.now w.tick)) w keyed
        (λ x m h. sends x (any_claimed-pending texts rs x h))
  Step-Moves texts w w' keyed (retry_step _ r error delay long) =
      let until = answers.now w.tick + texts.interval delay in
      update-Moves "putting an outbox row back" tt (is_claimed (claim_of texts r))
        (set_retry until error) w keyed
        (λ x m h. retries x until error (is_claimed-pending (claim_of texts r) x h) (omega arith))
  Step-Moves texts w w' keyed (failed_step _ r error) =
      update-Moves "marking an outbox row failed" tt (is_claimed (claim_of texts r))
        (set_failed (answers.now w.tick) error) w keyed
        (λ x m h. fails x error (is_claimed-pending (claim_of texts r) x h))
  Step-Moves texts w w' keyed (commit_step _ t whole) = record {
    news = t.new_rows;
    olds = w.rows;
    split = refl;
    moved = all_stay (answers.now w.tick) w.rows;
    fresh = appended_fresh t.new_rows w.rows whole;
    keyed = whole;
  }
