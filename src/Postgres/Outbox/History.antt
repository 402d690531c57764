-- ===== src/Postgres/Outbox/History.antt =====
-- crates/postgres/src/outbox.rs: what the statements of any number of dispatchers and applications do
-- to the rows, in any order. `Move` is the life of one row: pending, leased and put back any number
-- of times, then dispatched or failed for good.
pub mod Fenced
pub mod Moved
pub mod Settled
pub mod Stale
use sisa_messaging_rs.Prelude.{ℕ, suc, ◌<◌, ◌≤◌, ◌≡◌, Bool, true, false, List, [], ◌∷◌, ◌++◌}
use sisa_messaging_rs.Prelude.Lists.{All, any_of}
use sisa_messaging_rs.Prelude.Text.{Text}
use sisa_messaging_rs.Core.Store.{OutboxRecord, Duration}
use sisa_messaging_rs.Postgres.Outbox.{Row, is_pending, Texts}
use sisa_messaging_rs.Postgres.Outbox.Statements.{
  World, Answers, Transaction, same_key, IsKeyed, is_due, leased, set_dispatched, set_retry,
  set_failed, set_unreadable, lease, mark_unreadable, mark_dispatched, mark_retry, mark_failed,
}

-- What a statement at the time `now` may do to a row.
pub data Move (now : ℕ) : Row → Row → Type 0 where
  stays : (r : Row) → Move now r r
  leases : (r : Row) (until : ℕ) → is_due now r ≡ true → now < until → Move now r (leased until r)
  sends : (r : Row) → is_pending r.status ≡ true → Move now r (set_dispatched now r)
  retries :
      (r : Row) (until : ℕ) (error : Text)
      → is_pending r.status ≡ true
      → now < until
      → Move now r (set_retry until error r)
  fails :
      (r : Row) (error : Text) → is_pending r.status ≡ true → Move now r (set_failed now error r)
  spoils :
      (r : Row) (error : Text) → is_pending r.status ≡ true → Move now r (set_unreadable error r)

abbrev pub AllMove : ℕ → List Row → List Row → Type 0
AllMove now [] [] = Unit
AllMove now [] (y ∷ ys) = ⊥
AllMove now (x ∷ xs) [] = ⊥
AllMove now (x ∷ xs) (y ∷ ys) = Move now x y × AllMove now xs ys

-- New rows have new keys; each other row moves, and none goes away; the keys stay distinct.
pub record Moves (now : ℕ) (rs rs' : List Row) : Type 0 where
  pub news : List Row
  pub olds : List Row
  pub split : rs' ≡ news ++ olds
  pub moved : AllMove now rs olds
  pub fresh : All (λ r. any_of (same_key r) rs ≡ false) news
  pub keyed : IsKeyed rs'

module _ (answers : Answers) (texts : Texts) where
  -- One statement: a dispatcher's, or the commit of an application's transaction, which the primary
  -- key lets through. A lease and a delay are longer than no time.
  pub data Step : World → World → Type 0 where
    lease_step :
        (w : World) (limit length : ℕ) → 0 < length → Step w (lease answers limit length w).1
    unreadable_step :
        (w : World) (r : Row) (error : Text) → Step w (mark_unreadable answers texts r error w).1
    dispatched_step :
        (w : World) (rs : List OutboxRecord) → Step w (mark_dispatched answers texts rs w).1
    retry_step :
        (w : World) (r : OutboxRecord) (error : Text) (delay : Duration)
        → 0 < texts.interval delay
        → Step w (mark_retry answers texts r error delay w).1
    failed_step :
        (w : World) (r : OutboxRecord) (error : Text)
        → Step w (mark_failed answers texts r error w).1
    commit_step :
        (w : World) (t : Transaction)
        → IsKeyed (t.new_rows ++ w.rows)
        → Step w (record { rows = t.new_rows ++ w.rows; tick = suc w.tick })

  -- Any number of statements, of any number of clients.
  pub data Steps : World → World → Type 0 where
    start : {w : World} → Steps w w
    later : {u v w : World} → Steps u v → Step v w → Steps u w
