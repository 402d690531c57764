-- ===== src/Postgres/Outbox/History/Stale.antt =====
-- crates/postgres/src/outbox.rs: the marks of a dispatcher whose lease ran out.
use sisa_messaging_rs.Prelude.{
  ℕ, suc, ◌+◌, ◌<◌, ◌≤◌, ◌≡◌, refl, subst, Bool, true, false, ◌||◌, List, [], ◌∷◌, arith,
  Bool-cases, inl, inr, String, if◌then◌else◌,
}
use sisa_messaging_rs.Prelude.Lists.{All, any_of}
use sisa_messaging_rs.Prelude.Text.{Text}
use sisa_messaging_rs.Core.Store.{OutboxRecord, Duration}
use sisa_messaging_rs.Core.Time.Timestamp
use mathlib.Core.List.{Memᴰ}
use mathlib.Core.List.Memᴰ
use sisa_messaging_rs.Postgres.Outbox.{Row, Texts}
use sisa_messaging_rs.Postgres.Outbox.Selected.{Memᴰ-any_of, select_due-IsSelection}
use sisa_messaging_rs.Postgres.Outbox.Statements.{
  World, Answers, Outcome, done, done_unseen, not_done, Claim, is_claimed, claim_of, same_key,
  IsKeyed, update, leased, execute, select_due, lease_rows, lease, mark_dispatched, mark_retry,
  mark_failed,
}
use sisa_messaging_rs.Postgres.Outbox.History.{lease_step, Steps}
use sisa_messaging_rs.Postgres.Outbox.History.Moved.{Step-Moves}
use sisa_messaging_rs.Postgres.Outbox.History.Fenced.{
  has_key, IsAfter, IsStale, Steps-IsStale, execute-tick,
}

-- An update that matches no row leaves the rows.
update-none :
    (p : Row → Bool) (f : Row → Row) (rs : List Row)
    → All (λ r. p r ≡ false) rs
    → update p f rs ≡ rs
update-none p f [] a = refl
update-none p f (r ∷ rs) a = rw (a.0, update-none p f rs a.1) refl

unclaimed : (c : Claim) (rs : List Row) → All (IsAfter c) rs → All (λ r. is_claimed c r ≡ false) rs
unclaimed c [] a = tt
unclaimed c (r ∷ rs) a = (
  elim (Bool-cases (is_claimed c r)) [
    | inl e ↦
        let late : c.leased_until < r.available_at = a.0 (ground arith) (ground arith) in
        let same : r.available_at ≡ c.leased_until = ground arith in absurd (omega arith)
    | inr e ↦ e
  ],
  unclaimed c rs a.1,
)

or_false :
    (rs : List Row) (p : Row → Bool)
    → All (λ r. p r ≡ false) rs
    → All (λ r. (p r || false) ≡ false) rs
or_false [] p a = tt
or_false (r ∷ rs) p a = (rw a.0 refl, or_false rs p a.1)

map-All :
    (P : Row → Type 0) (f : Row → Row) (p : Row → Bool) (rs : List Row)
    → ((r : Row) → Memᴰ r rs → P (if p r then f r else r))
    → All P (update p f rs)
map-All P f p [] h = tt
map-All P f p (r ∷ rs) h = (h r (Memᴰ.head refl), map-All P f p rs (λ x m. h x (Memᴰ.tail m)))

module _ (answers : Answers) where
  execute-same :
      {A : Type 0} (context : String) (a : A) (rs : List Row) (w : World)
      → rs ≡ w.rows
      → (execute answers context a rs w).1.rows ≡ w.rows
  unfolding execute
  execute-same context a rs w h = by_outcome (answers.ends w) refl
    where
      by_outcome :
          (o : Outcome) → answers.ends w ≡ o → (execute answers context a rs w).1.rows ≡ w.rows
      by_outcome done e = rw (execute, e) h
      by_outcome (done_unseen x) e = rw (execute, e) h
      by_outcome (not_done x) e = rw (execute, e) refl

  -- The statement was committed, whether the client saw it or not.
  abbrev pub IsCommitted : World → Type 0
  IsCommitted w = (e : Text) → answers.ends w ≡ not_done e → ⊥

  execute-committed :
      {A : Type 0} (context : String) (a : A) (rs : List Row) (w : World)
      → IsCommitted w
      → (execute answers context a rs w).1.rows ≡ rs
  unfolding execute
  execute-committed context a rs w h = by_outcome (answers.ends w) refl
    where
      by_outcome : (o : Outcome) → answers.ends w ≡ o → (execute answers context a rs w).1.rows ≡ rs
      by_outcome done e = rw (execute, e) refl
      by_outcome (done_unseen x) e = rw (execute, e) refl
      by_outcome (not_done x) e = absurd (h x e)

  same_keys :
      (c : Claim) (r x : Row) → has_key c r ≡ true → has_key c x ≡ true → same_key x r ≡ true
  same_keys c r x h k = ground arith

  any_has_key :
      (c : Claim) (p : Row → Bool) (f : Row → Row) (r : Row) (rs : List Row)
      → ((x : Row) → has_key c (f x) ≡ has_key c x)
      → Memᴰ r rs
      → has_key c r ≡ true
      → any_of (has_key c) (update p f rs) ≡ true
  any_has_key c p f r [] keeps m h = absurd (Memᴰ.not-nil m)
  any_has_key c p f r (x ∷ rs) keeps m h = elim (Memᴰ.cases_cons m) [
    | inl e ↦
        let here : has_key c x ≡ true = subst (λ z. has_key c z ≡ true) e h in
        elim (Bool-cases (p x)) [ inl q ↦ rw (q, keeps x, here) refl | inr q ↦ rw (q, here) refl ]
    | inr m' ↦ let ih = any_has_key c p f r rs keeps m' h in ground arith
  ]

  -- A later claim of its row makes a claim that ran out stale.
  lease-IsStale :
      (c : Claim) (r : Row) (limit length : ℕ) (w : World)
      → IsKeyed w.rows
      → answers.now w.tick ≤ answers.now (suc w.tick)
      → IsCommitted w
      → 0 < length
      → has_key c r ≡ true
      → c.leased_until ≤ answers.now w.tick
      → Memᴰ r (select_due (answers.locked w) (answers.now w.tick) limit w.rows)
      → IsStale answers c (lease answers limit length w).1
  unfolding lease lease_rows
  lease-IsStale c r limit length w keyed clock committed long key past m =
      let now = answers.now w.tick in
      let selected = select_due (answers.locked w) now limit w.rows in
      let p : Row → Bool = λ x. any_of (same_key x) selected in
      let f = leased (now + length) in
      let rows : (lease answers limit length w).1.rows ≡ update p f w.rows =
        execute-committed "claiming outbox rows" _ (update p f w.rows) w committed in
      record {
        past =
            rw (execute-tick answers "claiming outbox rows" _ (update p f w.rows) w)
              (omega (arith, clock, past));
        present = rw rows (
            any_has_key c p f r w.rows (λ x. refl)
              ((select_due-IsSelection (answers.locked w) now limit w.rows).sound r m).0 key);
        after = rw rows (
            map-All (IsAfter c) f p w.rows (λ x mx. elim (Bool-cases (p x)) [
              | inl q ↦ rw q (λ k pending. omega arith)
              | inr q ↦ rw q (λ k pending.
                  absurd (cc (q, Memᴰ-any_of (same_key x) r selected m (same_keys c r x key k))))
            ]));
      }

  -- A statement that only touches claimed rows changes nothing for a stale claim.
  mark_none :
      {A : Type 0} (context : String) (a : A) (p : Row → Bool) (f : Row → Row) (w : World)
      → All (λ r. p r ≡ false) w.rows
      → (execute answers context a (update p f w.rows) w).1.rows ≡ w.rows
  mark_none context a p f w h =
      execute-same context a (update p f w.rows) w (update-none p f w.rows h)

  -- When a claimed row's lease ran out and the row was claimed again, then whatever statements of
  -- dispatchers and applications follow, in any order, no mark of the first claim changes a row. The
  -- clock does not go back, and a lease and a delay are longer than no time.
  pub stale_marks :
      (texts : Texts)
      → ((n : ℕ) → answers.now n ≤ answers.now (suc n))
      → (first : OutboxRecord) (r : Row) (limit length : ℕ) (w w' : World) → IsKeyed w.rows
      → IsCommitted w
      → 0 < length
      → has_key (claim_of texts first) r ≡ true
      → texts.timestamptz (Timestamp.to_string first.leased_until) ≤ answers.now w.tick
      → Memᴰ r (select_due (answers.locked w) (answers.now w.tick) limit w.rows)
      → Steps answers texts (lease answers limit length w).1 w'
      → (error : Text) (delay : Duration)
      → ((mark_dispatched answers texts (first ∷ []) w').1.rows ≡ w'.rows)
        × ((mark_retry answers texts first error delay w').1.rows ≡ w'.rows)
        × ((mark_failed answers texts first error w').1.rows ≡ w'.rows)
  unfolding mark_dispatched mark_retry mark_failed
  stale_marks texts clock first r limit length w w' keyed committed long key past m steps error
        delay =
      let c = claim_of texts first in
      let stale = lease-IsStale c r limit length w keyed (clock w.tick) committed long key past m in
      let moves = Step-Moves answers texts w _ keyed (lease_step w limit length long) in
      let (keyed', still) =
        Steps-IsStale answers texts clock c (lease answers limit length w).1 w' moves.keyed steps
          stale in
      let none = unclaimed c w'.rows still.after in
      (
        mark_none _ tt _ _ w' (or_false w'.rows (is_claimed c) none),
        mark_none _ tt _ _ w' none,
        mark_none _ tt _ _ w' none,
      )
