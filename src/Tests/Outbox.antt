-- ===== src/Tests/Outbox.antt =====
-- The outbox's table: two due rows, of which the first is claimed, runs out, and is claimed again.
use sisa_messaging_rs.Prelude.{ℕ, suc, ◌+◌, ◌≤◌, ◌≡◌, refl, arith, false, [], ◌∷◌, ok}
use sisa_messaging_rs.Prelude.Int.{pos}
use mathlib.Core.List.{Memᴰ}
use sisa_messaging_rs.Core.Time.Timestamp
use sisa_messaging_rs.Core.Time.Timestamp.{Timestamp}
use sisa_messaging_rs.Core.Time.Timestamp.RoundTrip.{from_str-to_string}
use sisa_messaging_rs.Core.Store.{OutboxRecord}
use sisa_messaging_rs.Postgres.Outbox.{Row, Texts, record_of, row_of}
use sisa_messaging_rs.Postgres.Outbox.RoundTrip.{record_of-row_of}
use sisa_messaging_rs.Postgres.Outbox.Selected.{IsSelection, select_due-IsSelection}
use sisa_messaging_rs.Postgres.Outbox.Statements.{
  World, Answers, done, IsKeyed, select_due, lease, mark_dispatched, mark_retry, mark_failed,
}
use sisa_messaging_rs.Postgres.Outbox.History.{Moves, lease_step, dispatched_step, start, later}
use sisa_messaging_rs.Postgres.Outbox.History.Moved.{Step-Moves}
use sisa_messaging_rs.Postgres.Outbox.History.Settled.{IsLater, Steps-IsLater}
use sisa_messaging_rs.Postgres.Outbox.History.Stale.{stale_marks}
use sisa_messaging_rs.Tests.Sample.{uuid, order}
use sisa_messaging_rs.Tests.Envelopes.{order-IsReadable}

abbrev instant : Timestamp
instant = record { seconds = pos 1_700_000_000; nanos = 0 }

-- PostgreSQL with one instant in its texts; an interval is the duration and one microsecond.
abbrev texts : Texts
texts = record {
  to_json = λ n. Timestamp.to_string instant;
  timestamptz = λ text. 100;
  interval = λ d. suc d;
  show_envelope_error = λ e. [];
}

record_of-row_of_example :
    record_of uuid texts (row_of uuid 100 (order 7))
    ≡ ok (record { envelope = order 7; created_at = instant; attempts = 0; leased_until = instant })
record_of-row_of_example = record_of-row_of uuid (order 7) order-IsReadable texts 100 instant (
    from_str-to_string instant
      (record { low = omega arith; high = omega arith; nanos = omega arith }))

abbrev answers : Answers
answers = record { now = λ tick. 200 + tick; ends = λ w. done; locked = λ w r. false }

abbrev first_row : Row
first_row = row_of uuid 100 (order 1)

abbrev second_row : Row
second_row = row_of uuid 100 (order 2)

abbrev world : World
world = record { rows = second_row ∷ (first_row ∷ []); tick = 0 }

select_due-IsSelection_example :
    IsSelection (λ r. false) 200 1 world.rows (select_due (λ r. false) 200 1 world.rows)
select_due-IsSelection_example = select_due-IsSelection (λ r. false) 200 1 world.rows

keyed : IsKeyed world.rows
unfolding row_of
keyed = (refl, (refl, tt))

Step-Moves_example : Moves 200 world.rows (lease answers 1 30 world).1.rows
Step-Moves_example =
    Step-Moves answers texts world (lease answers 1 30 world).1 keyed
      (lease_step world 1 30 (omega arith))

abbrev claimed : OutboxRecord
claimed = record { envelope = order 1; created_at = instant; attempts = 0; leased_until = instant }

clock : (n : ℕ) → answers.now n ≤ answers.now (suc n)
clock n = omega arith

first_row-selected : Memᴰ first_row (select_due (answers.locked world) 200 1 world.rows)
unfolding select_due row_of
first_row-selected = Memᴰ.head refl

stale_marks_example :
    ((mark_dispatched answers texts (claimed ∷ []) (lease answers 1 30 world).1).1.rows
      ≡ (lease answers 1 30 world).1.rows)
    × ((mark_retry answers texts claimed [] 5 (lease answers 1 30 world).1).1.rows
        ≡ (lease answers 1 30 world).1.rows)
    × ((mark_failed answers texts claimed [] (lease answers 1 30 world).1).1.rows
        ≡ (lease answers 1 30 world).1.rows)
unfolding row_of
stale_marks_example =
    stale_marks answers texts clock claimed first_row 1 30 world (lease answers 1 30 world).1 keyed
      (λ e h. cc h) (omega arith) refl (omega arith) first_row-selected start [] 5

Steps-IsLater_example :
    (r' : Row) × Memᴰ r' (mark_dispatched answers texts (claimed ∷ []) world).1.rows
    × IsLater first_row r'
Steps-IsLater_example =
    Steps-IsLater answers texts world (mark_dispatched answers texts (claimed ∷ []) world).1
      first_row keyed (later start (dispatched_step world (claimed ∷ [])))
      (Memᴰ.tail (Memᴰ.head refl))
