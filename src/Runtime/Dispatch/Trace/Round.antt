-- ===== src/Runtime/Dispatch/Trace/Round.antt =====
-- A whole round of the dispatcher, in any environment.
use sisa_messaging_rs.Prelude.{
  ℕ, ◌≡◌, ◌≢◌, arith, refl, sym, ap, ◌∙◌, Bool, false, List, [], ◌∷◌, ◌++◌, Result, ok, err, map,
  append-nil, ◌⊎◌, inl, inr, ◌==◌, Result-cases,
}
use sisa_messaging_rs.Prelude.Lists.{length, take, length-map}
use sisa_messaging_rs.Prelude.Acts.{◌>>=◌}
use sisa_messaging_rs.Core.Store.{StoreError, OutboxRecord, Duration}
use sisa_messaging_rs.Runtime.Dispatch.{DispatchSettings, round, mark_published}
use sisa_messaging_rs.Runtime.Dispatch.Trace.{
  read_clock, claimed, dispatched, Marked, History, Environment, store, run_round,
}
use sisa_messaging_rs.Runtime.Dispatch.Trace.Runs.{Runs, Outcome, loop-Outcome}
use sisa_messaging_rs.Runtime.Dispatch.Trace.Guarded.{IsOrderly, Runs-IsOrderly}
use sisa_messaging_rs.Runtime.Dispatch.Trace.Confirmed.{
  confirmed, refusals, attempted, marked, put_backs, envelope_of, confirmed-Runs, marked-Runs,
  put_backs-Runs, attempted-Runs,
}

abbrev pub claimed_rows : Result StoreError (List OutboxRecord) → List OutboxRecord
claimed_rows (ok records) = records
claimed_rows (err _) = []

-- The mark that ends a round with confirmed rows.
abbrev pub closing : List OutboxRecord → Marked → History → History
closing [] m h = h
closing (r ∷ rs) m h = dispatched (r ∷ rs) m ∷ h

abbrev pub opening : Duration → Result StoreError (List OutboxRecord) → History
opening c rows = claimed rows ∷ (read_clock c ∷ [])

-- A round that could claim: what it confirmed, and how its history ends.
pub record Summary (s : DispatchSettings) (c : Duration) (records : List OutboxRecord)
    (result : Bool × History) : Type 0 where
  pub news : List OutboxRecord
  pub middle : History
  pub mark : Marked
  pub runs : Runs s c records (opening c (ok records)) news middle
  pub history : result.1 ≡ closing news mark middle
  pub answer : result.0 ≡ (length news == s.batch_size)

module _ (env : Environment) (s : DispatchSettings) where
  abbrev claimed_at : Duration
  claimed_at = env.clock []

  abbrev rows : Result StoreError (List OutboxRecord)
  rows = env.rows (read_clock (env.clock []) ∷ [])

  closing_lem :
      (ps : List OutboxRecord) (h : History)
      → (mark_published (store env) ps h).1 ≡ closing ps (env.mark h) h
  closing_lem [] h = refl
  closing_lem (p ∷ ps) h = refl

  answered-Summary :
      (records : List OutboxRecord) (result : List OutboxRecord × History)
      → Outcome s claimed_at records [] (opening claimed_at (ok records)) result
      → Summary s claimed_at records
          (length result.0 == s.batch_size, (mark_published (store env) result.0 result.1).1)
  answered-Summary records result o = record {
    news = o.news;
    middle = result.1;
    mark = env.mark result.1;
    runs = o.runs;
    history =
        closing_lem result.0 result.1 ∙ ap (λ ps. closing ps (env.mark result.1) result.1) o.answer;
    answer = ap (λ (ps : List OutboxRecord). length ps == s.batch_size) o.answer;
  }

  -- A round either could not claim, and did nothing, or is summed up.
  pub round-Summary :
      ((e : StoreError) × (run_round env s [] ≡ (false, opening claimed_at (err e))))
      ⊎ ((records : List OutboxRecord) × (rows ≡ ok records)
          × Summary s claimed_at records (run_round env s []))
  unfolding round
  round-Summary = elim (Result-cases rows) [
    | inr (e, h) ↦ inl (e, rw (◌>>=◌, h))
    | inl (records, h) ↦ inr (
      records,
      h,
      rw (◌>>=◌, h) (answered-Summary records _ (loop-Outcome env s claimed_at records [] _)),
    )
  ]

-- The last mark adds its rows to `marked`, and nothing to the other summaries of a history.
module _ (m : Marked) (h : History) where
  marked-closing :
      (qs : List OutboxRecord) → marked (closing qs m h) ≡ marked h ++ map envelope_of qs
  marked-closing [] = sym (append-nil (marked h))
  marked-closing (q ∷ qs) = refl

  confirmed-closing : (qs : List OutboxRecord) → confirmed (closing qs m h) ≡ confirmed h
  confirmed-closing [] = refl
  confirmed-closing (q ∷ qs) = refl

  attempted-closing : (qs : List OutboxRecord) → attempted (closing qs m h) ≡ attempted h
  attempted-closing [] = refl
  attempted-closing (q ∷ qs) = refl

  put_backs-closing :
      (qs : List OutboxRecord)
      → put_backs h ≡ refusals h
      → put_backs (closing qs m h) ≡ refusals (closing qs m h)
  put_backs-closing [] e = e
  put_backs-closing (q ∷ qs) e = e

  IsOrderly-closing :
      (s : DispatchSettings) (c : Duration) (qs : List OutboxRecord)
      → IsOrderly s c h
      → IsOrderly s c (closing qs m h)
  IsOrderly-closing s c [] o = o
  IsOrderly-closing s c (q ∷ qs) o = o

module _ (env : Environment) (s : DispatchSettings) where
  -- In every environment, a round asks the store to mark dispatched the rows of exactly the
  -- envelopes whose publish the broker confirmed before the deadline, in the order of the publishes.
  pub round-marked : marked (run_round env s []).1 ≡ confirmed (run_round env s []).1
  round-marked = elim (round-Summary env s) [
    | inl (e, h) ↦ rw h refl
    | inr (records, e, o) ↦
        rw
          (
            o.history,
            marked-closing o.mark o.middle o.news,
            confirmed-closing o.mark o.middle o.news,
          )
          (rw (marked-Runs o.runs, confirmed-Runs o.runs) refl)
  ]

  -- A round puts back exactly the rows whose publish the broker refused before the deadline, each
  -- once, in the order of the publishes.
  pub round-put_backs : put_backs (run_round env s []).1 ≡ refusals (run_round env s []).1
  round-put_backs = elim (round-Summary env s) [
    | inl (e, h) ↦ rw h refl
    | inr (records, e, o) ↦
        rw o.history (put_backs-closing o.mark o.middle o.news (put_backs-Runs o.runs refl))
  ]

  -- A round publishes only after the stop signal was read as not set and the clock within the
  -- lease, measured from before the claim; and it puts a row back only right after its refusal, as
  -- failed on the policy's last attempt, and with the policy's delay on any other.
  pub round-IsOrderly : IsOrderly s (env.clock []) (run_round env s []).1
  round-IsOrderly = elim (round-Summary env s) [
    | inl (e, h) ↦ rw h tt
    | inr (records, e, o) ↦
        rw o.history
          (IsOrderly-closing o.mark o.middle s (env.clock []) o.news (Runs-IsOrderly o.runs tt))
  ]

  -- A round publishes the envelopes of a prefix of the rows that the claim answered, in the
  -- claim's order and each once; it publishes nothing when the claim failed.
  pub round-attempted :
      (n : ℕ) × (attempted (run_round env s []).1
        ≡ map envelope_of (take n (claimed_rows (env.rows (read_clock (env.clock []) ∷ [])))))
  round-attempted = elim (round-Summary env s) [
    | inl (e, h) ↦ (0, rw h refl)
    | inr (records, e, o) ↦
        let (n, a) = attempted-Runs o.runs in
        (n, rw (o.history, attempted-closing o.mark o.middle o.news, e) a)
  ]

  -- With a batch that holds some rows, a round answers that more rows may be due exactly when the
  -- broker confirmed as many as the batch holds.
  pub round-answer :
      s.batch_size ≢ 0
      → (run_round env s []).0 ≡ (length (confirmed (run_round env s []).1) == s.batch_size)
  round-answer some_rows = elim (round-Summary env s) [
    | inl (e, h) ↦ rw h (ground arith)
    | inr (records, e, o) ↦
        rw
          (
            o.history,
            confirmed-closing o.mark o.middle o.news,
            confirmed-Runs o.runs,
            length-map o.news envelope_of,
          )
          o.answer
  ]
