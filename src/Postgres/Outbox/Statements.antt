-- ===== src/Postgres/Outbox/Statements.antt =====
-- crates/postgres/src/outbox.rs: the statements of `PostgresOutbox` on the committed rows. Each runs
-- in a transaction of its own, at the time that `now()` reads. That `attempts` left the range of an
-- `integer` is one of the ways a statement fails.
use sisa_messaging_rs.Prelude.{
  ℕ, suc, ◌≡◌, ◌+◌, ◌-◌, ◌^◌, Bool, true, false, not, ◌&&◌, List, [], ◌∷◌, ◌++◌, some, Result, ok,
  err, String, map, min, leb, ◌==◌, if◌then◌else◌,
}
use sisa_messaging_rs.Prelude.Lists.{take, any_of}
use sisa_messaging_rs.Prelude.Acts.{Act, pure, ◌>>?◌}
use sisa_messaging_rs.Prelude.Text.{Text, codes}
use sisa_messaging_rs.Core.MessageId.{UuidText}
use sisa_messaging_rs.Core.Time.Timestamp
use sisa_messaging_rs.Core.Envelope.Defs.{Envelope}
use sisa_messaging_rs.Core.Store.{
  StoreError, database, OutboxRecord, OutboxStore, OutboxWriter, Duration,
}
use sisa_messaging_rs.Postgres.Outbox.{
  Row, is_pending, dispatched, failed, Texts, record_of, row_of,
}

-- The committed rows and a counter of the statements.
pub record World : Type 0 where
  pub rows : List Row
  pub tick : ℕ

-- What a transaction of the application's wrote, newest first, and when it began; a failed
-- statement aborts it.
pub record Transaction : Type 0 where
  pub started : ℕ
  pub new_rows : List Row
  pub aborted : Bool

-- How a statement ends: it is committed, the connection dropped after the commit, or it fails.
pub data Outcome : Type 0 where
  done : Outcome
  done_unseen not_done : Text → Outcome

-- The clock by the counter, how a statement ends, and the rows that others have locked.
pub record Answers : Type 0 where
  pub now : ℕ → ℕ
  pub ends : World → Outcome
  pub locked : World → Row → Bool

abbrev pub Done : Type 0
Done = Result StoreError (Unit {0})

-- The columns of `pk_outbox_messages`.
abbrev pub same_key : Row → Row → Bool
same_key a b = (a.created_at == b.created_at) && (a.id == b.id)

-- The primary key: no two rows have one key.
abbrev pub IsKeyed : List Row → Type 0
IsKeyed [] = Unit
IsKeyed (r ∷ rs) = (any_of (same_key r) rs ≡ false) × IsKeyed rs

abbrev pub filter : (Row → Bool) → List Row → List Row
filter p [] = []
filter p (r ∷ rs) = let rest = filter p rs in if p r then r ∷ rest else rest

-- `UPDATE .. SET .. WHERE`.
abbrev pub update : (Row → Bool) → (Row → Row) → List Row → List Row
update p f = map (λ r. if p r then f r else r)

-- `ORDER BY id`.
abbrev pub place : Row → List Row → List Row
place r [] = r ∷ []
place r (x ∷ xs) = if leb r.id x.id then r ∷ (x ∷ xs) else x ∷ place r xs

abbrev pub order_by_id : List Row → List Row
order_by_id [] = []
order_by_id (r ∷ rs) = place r (order_by_id rs)

-- A claimed row, as a mark finds it again: its key, and the due time its claim set.
pub record Claim : Type 0 where
  pub id : ℕ
  pub created_at : ℕ
  pub leased_until : ℕ

abbrev pub is_claimed : Claim → Row → Bool
is_claimed c r =
    (r.created_at == c.created_at)
    && ((r.id == c.id) && (is_pending r.status && (r.available_at == c.leased_until)))

-- `i64::try_from(limit).unwrap_or(i64::MAX)`.
abbrev pub bound_limit : ℕ → ℕ
bound_limit limit = min limit (2 ^ 63 - 1)

-- The rows that the subquery of `claim` selects.
abbrev pub is_due : ℕ → Row → Bool
is_due now r = is_pending r.status && leb r.available_at now

unfoldable pub select_due : (Row → Bool) → ℕ → ℕ → List Row → List Row
select_due locked now limit rs =
    take (bound_limit limit) (order_by_id (filter (λ r. is_due now r && not (locked r)) rs))

abbrev pub leased : ℕ → Row → Row
leased until r = record r { available_at = until }

-- The rows after the `UPDATE`, and those it returns, in the outer query's order.
unfoldable pub lease_rows : List Row → ℕ → List Row → List Row
lease_rows selected until = update (λ r. any_of (same_key r) selected) (leased until)

unfoldable pub returned_rows : List Row → ℕ → List Row → List Row
returned_rows selected until rs =
    order_by_id (map (leased until) (filter (λ r. any_of (same_key r) selected) rs))

abbrev pub set_dispatched : ℕ → Row → Row
set_dispatched now r = record r { status = dispatched; dispatched_at = some now }

abbrev pub set_retry : ℕ → Text → Row → Row
set_retry until error r = record r {
  attempts = r.attempts + 1;
  last_error = some error;
  available_at = until;
}

abbrev pub set_failed : ℕ → Text → Row → Row
set_failed now error r = record r {
  status = failed;
  attempts = r.attempts + 1;
  last_error = some error;
  available_at = now;
}

-- As `set_failed`, with the due time kept.
abbrev pub set_unreadable : Text → Row → Row
set_unreadable error r = record r {
  status = failed;
  attempts = r.attempts + 1;
  last_error = some error;
}

-- `created_at`, `id` and `leased_until` of a record, as the marks bind them.
abbrev pub claim_of : Texts → OutboxRecord → Claim
claim_of texts r = record {
  id = r.envelope.id.uuid;
  created_at = texts.timestamptz (Timestamp.to_string r.created_at);
  leased_until = texts.timestamptz (Timestamp.to_string r.leased_until);
}

abbrev pub claim_of_row : Texts → Row → Claim
claim_of_row texts r = record {
  id = r.id;
  created_at = texts.timestamptz (texts.to_json r.created_at);
  leased_until = texts.timestamptz (texts.to_json r.available_at);
}

-- A failed `INSERT` aborts its transaction.
unfoldable pub refused_insert : Transaction → Text → Done × Transaction
refused_insert t e = (err (database "inserting an outbox row" e), record t { aborted = true })

module _ (answers : Answers) where
  -- A statement that changes the rows: what the client sees of it, and the rows after it.
  unfoldable pub execute : {A : Type 0} → String → A → List Row → Act World (Result StoreError A)
  execute context a rs w = elim (answers.ends w) [
    | done ↦ (ok a, record { rows = rs; tick = suc w.tick })
    | done_unseen e ↦ (err (database context e), record { rows = rs; tick = suc w.tick })
    | not_done e ↦ (err (database context e), record w { tick = suc w.tick })
  ]

  -- The first statement of `claim`.
  unfoldable pub lease : ℕ → ℕ → Act World (Result StoreError (List Row))
  unfolding execute select_due lease_rows returned_rows
  lease limit length w =
      let now = answers.now w.tick in
      let selected = select_due (answers.locked w) now limit w.rows in
      execute "claiming outbox rows" (returned_rows selected (now + length) w.rows)
        (lease_rows selected (now + length) w.rows) w

  module _ (texts : Texts) where
    unfoldable pub mark_unreadable : Row → Text → Act World Done
    mark_unreadable r error w =
        execute "marking an unreadable outbox row failed" tt
          (update (is_claimed (claim_of_row texts r))
            (set_unreadable (codes "not a valid envelope: " ++ error)) w.rows)
          w

    -- The loop over the claimed rows. `records` is newest last, as in the code.
    unfoldable pub read_rows :
        UuidText → List Row → List OutboxRecord → Act World (Result StoreError (List OutboxRecord))
    unfolding mark_unreadable
    read_rows uuid [] records = pure (ok records)
    read_rows uuid (r ∷ rs) records = elim (record_of uuid texts r) [
      | ok record' ↦ read_rows uuid rs (records ++ (record' ∷ []))
      | err error ↦ (mark_unreadable r error >>? λ _. read_rows uuid rs records)
    ]

    unfoldable pub claim :
        UuidText → ℕ → Duration → Act World (Result StoreError (List OutboxRecord))
    unfolding lease read_rows
    claim uuid limit length = lease limit (texts.interval length) >>? λ rs. read_rows uuid rs []

    unfoldable pub mark_dispatched : List OutboxRecord → Act World Done
    mark_dispatched records w =
        execute "marking outbox rows dispatched" tt
          (update (λ r. any_of (λ c. is_claimed (claim_of texts c) r) records)
            (set_dispatched (answers.now w.tick)) w.rows)
          w

    unfoldable pub mark_retry : OutboxRecord → Text → Duration → Act World Done
    mark_retry r error delay w =
        execute "putting an outbox row back" tt
          (update (is_claimed (claim_of texts r))
            (set_retry (answers.now w.tick + texts.interval delay) error) w.rows)
          w

    unfoldable pub mark_failed : OutboxRecord → Text → Act World Done
    mark_failed r error w =
        execute "marking an outbox row failed" tt
          (update (is_claimed (claim_of texts r)) (set_failed (answers.now w.tick) error) w.rows) w

    abbrev pub postgres_outbox : UuidText → OutboxStore World
    postgres_outbox uuid = record {
      claim = claim uuid;
      mark_dispatched = mark_dispatched;
      mark_retry = mark_retry;
      mark_failed = mark_failed;
    }

  -- One `INSERT` on the application's transaction, which sees the committed rows and its own.
  unfoldable pub insert_row : Text → Row → Transaction → World → Done × Transaction
  unfolding refused_insert
  insert_row duplicate r t w =
      if t.aborted
      then refused_insert t (codes "current transaction is aborted")
      else if any_of (same_key r) (t.new_rows ++ w.rows)
      then refused_insert t duplicate
      else elim (answers.ends w) [
        | done ↦ (ok tt, record t { new_rows = r ∷ t.new_rows })
        | done_unseen e ↦ refused_insert t e
        | not_done e ↦ refused_insert t e
      ]

  -- The loop over the envelopes, up to the first error. `duplicate` is PostgreSQL's error text.
  unfoldable pub insert :
      UuidText → Text → Transaction → List Envelope → Act World (Done × Transaction)
  unfolding insert_row
  insert uuid duplicate t [] w = ((ok tt, t), w)
  insert uuid duplicate t (e ∷ es) w =
      let (written, t') = insert_row duplicate (row_of uuid t.started e) t w in
      let w' = record w { tick = suc w.tick } in
      elim written [ ok _ ↦ insert uuid duplicate t' es w' | err error ↦ ((err error, t'), w') ]

  abbrev pub postgres_writer : UuidText → Text → OutboxWriter World Transaction
  postgres_writer uuid duplicate = record { insert = insert uuid duplicate }
