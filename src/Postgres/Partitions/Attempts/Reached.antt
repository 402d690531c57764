-- ===== src/Postgres/Partitions/Attempts/Reached.antt =====
-- crates/postgres/src/partitions.rs: which days the attempts to create partitions reach.
use sisa_messaging_rs.Prelude.{
  ℕ, zero, suc, ◌≤◌, ◌≡◌, refl, Bool, true, false, ◌&&◌, ◌||◌, List, [], ◌∷◌, ◌++◌, some, Result,
  ok, err, arith, Bool-cases, Option-cases, Result-cases, inl, inr, subst,
}
use sisa_messaging_rs.Prelude.Lists.{any_of}
use sisa_messaging_rs.Core.Time.Date.{Date, lt_date, le_date}
use sisa_messaging_rs.Core.Store.{StoreError}
use sisa_messaging_rs.Core.Partition
use sisa_messaging_rs.Core.Partition.{PartitionInfo, PartitionInterval}
use sisa_messaging_rs.Postgres.Partitions.{
  holds, find_holder, gap_end, Progress, noted, fill, days_between, fill_intervals,
}
use sisa_messaging_rs.Postgres.Partitions.Covered.{
  IsIn, IsHolder, find_holder-IsHolder, gap_end-bounds, append-IsHeld, last-IsHeld, days_left-zero,
  days_left-step, horizon,
}
use sisa_messaging_rs.Postgres.Partitions.Attempts.{Attempt, Answers, create}

abbrev is_refused : Result StoreError (Unit {0}) → Bool
is_refused (ok u) = false
is_refused (err e) = true

-- A day of a stretch that the database refused to create.
abbrev pub refuses : Date → Attempt → Bool
refuses d a = (le_date a.from d && lt_date d a.to) && is_refused a.answer

-- A day in a partition, or in a stretch that was refused.
abbrev pub IsReached : List PartitionInfo → List Attempt → Date → Type 0
IsReached ps w d = (any_of (holds d) ps || any_of (refuses d) w) ≡ true

pub record Reached (start end : Date) (before : Progress) (w : List Attempt) (after : Progress)
    (w' : List Attempt) : Type 0 where
  pub kept : (d : Date) → IsReached before.0 w d → IsReached after.0 w' d
  pub covered : (d : Date) → IsIn start end d → IsReached after.0 w' d

Reached-empty :
    (start end : Date) (before : Progress) (w : List Attempt)
    → lt_date start end ≡ false
    → Reached start end before w before w
Reached-empty start end before w h = record {
  kept = λ d k. k;
  covered = λ d inside. absurd (ground arith);
}

Reached-trans :
    {start middle end : Date} {before between after : Progress} {w w₁ w₂ : List Attempt}
    → Reached start middle before w between w₁
    → Reached middle end between w₁ after w₂
    → Reached start end before w after w₂
Reached-trans {start = start} {middle = middle} {end = end} f g = record {
  kept = λ d k. g.kept d (f.kept d k);
  covered = λ d inside. elim (Bool-cases (lt_date d middle)) [
    | inl before ↦ g.kept d (f.covered d (ground arith))
    | inr after ↦ g.covered d (ground arith)
  ];
}

or_left : (a b c : Bool) → a ≡ true → (a || b) ≡ true
or_left a b c h = ground arith

-- A partition that is there reaches the days up to its end.
holder-Reached :
    (day : Date) (p : PartitionInfo) (before : Progress) (w : List Attempt)
    → IsHolder before.0 day (some p)
    → Reached day p.to before w before w
holder-Reached day p before w h = record {
  kept = λ d k. k;
  covered = λ d inside. (let held = h.1 d (ground (arith, h.0)) in rw held refl);
}

append-IsReached :
    (ps qs : List PartitionInfo) (w : List Attempt) (a : Attempt) (d : Date)
    → IsReached ps w d
    → IsReached (ps ++ qs) (a ∷ w) d
append-IsReached ps qs w a d k = elim (Bool-cases (any_of (holds d) ps)) [
  | inl h ↦ let held = append-IsHeld ps qs d h in rw held refl
  | inr h ↦ ground arith
]

refused_after :
    (ps : List PartitionInfo) (w : List Attempt) (a : Attempt) (d : Date)
    → IsReached ps w d
    → IsReached ps (a ∷ w) d
refused_after ps w a d k = ground arith

refused-IsReached :
    (ps : List PartitionInfo) (w : List Attempt) (a : Attempt) (d : Date)
    → refuses d a ≡ true
    → IsReached ps (a ∷ w) d
refused-IsReached ps w a d k = ground arith

module _ (answers : Answers) where
  attempt-Reached :
      (day to : Date) (before : Progress) (w : List Attempt)
      → Reached day to before w
          (noted (create answers) day to before (create answers day to w).0)
          (create answers day to w).1
  attempt-Reached day to before w = elim (Result-cases (answers w day to)) [
    | inl (u, h) ↦
        let made : Attempt = record { from = day; to = to; answer = ok u } in
        rw h (record {
          kept = λ d k. append-IsReached before.0 (Partition.new [] day to ∷ []) w made d k;
          covered = λ d inside.
              (let held = last-IsHeld before.0 (Partition.new [] day to) d inside in rw held refl);
        })
    | inr (e, h) ↦
        let refused : Attempt = record { from = day; to = to; answer = err e } in
        rw h (record {
          kept = λ d k. refused_after before.0 w refused d k;
          covered = λ d inside. refused-IsReached before.0 w refused d (ground arith);
        })
  ]

  fill-Reached :
      (n : ℕ) (end day : Date) (before : Progress) (w : List Attempt)
      → days_between day end ≤ n
      → Reached day end before w
          (fill (create answers) n end day before w).0
          (fill (create answers) n end day before w).1
  unfolding fill
  fill-Reached zero end day before w enough =
      Reached-empty day end before w (days_left-zero day end enough)
  fill-Reached (suc n) end day before w enough = elim (Bool-cases (lt_date day end)) [
    | inr e ↦ rw e (Reached-empty day end before w e)
    | inl e ↦ elim (Option-cases (find_holder day before.0)) [
      | inr (p, found) ↦
          let h : IsHolder before.0 day (some p) =
            subst (IsHolder before.0 day) found (find_holder-IsHolder before.0 day) in
          rw (e, found)
            (Reached-trans (holder-Reached day p before w h) (
              fill-Reached n end p.to before w
                (days_left-step n day p.to end enough (ground (arith, h.0)))))
      | inl missing ↦
          let to = gap_end day end before.0 in
          let bounds = gap_end-bounds day end before.0 (ground arith) in
          let asked = create answers day to w in
          rw (e, missing)
            (Reached-trans (attempt-Reached day to before w) (
              fill-Reached n end to (noted (create answers) day to before asked.0) asked.1
                (days_left-step n day to end enough bounds.0)))
    ]
  ]

  pub fill_intervals-Reached :
      (interval : PartitionInterval) (n : ℕ) (start : Date) (before : Progress) (w : List Attempt)
      → Reached start
          (horizon interval n start)
          before
          w
          (fill_intervals (create answers) interval n start before w).0
          (fill_intervals (create answers) interval n start before w).1
  unfolding fill_intervals
  fill_intervals-Reached interval zero start before w = record {
    kept = λ d k. k;
    covered = λ d inside. absurd (ground arith);
  }
  fill_intervals-Reached interval (suc n) start before w =
      let end = Partition.end_of interval start in
      let filled = fill (create answers) (days_between start end) end start before w in
      Reached-trans (fill-Reached (days_between start end) end start before w (omega arith))
        (fill_intervals-Reached interval n end filled.0 filled.1)
