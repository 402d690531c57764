-- ===== src/Postgres/Partitions/Attempts.antt =====
-- crates/postgres/src/partitions.rs: what `ensure_partitions` asks the database to create. The world is
-- the list of the attempts to create a partition, newest first, each with the database's answer, which
-- is any function of the attempts before it and of the stretch.
pub mod Ensured
pub mod Reached
use sisa_messaging_rs.Prelude.{
  ℕ, zero, suc, ◌≡◌, refl, true, ◌∙◌, ap, subst, false, List, [], ◌∷◌, ◌++◌, Option, none, some,
  Result, ok, err, arith, Bool-cases, Option-cases, Result-cases, inl, inr,
}
use sisa_messaging_rs.Prelude.Acts.{Act}
use sisa_messaging_rs.Prelude.Lists.{any_of}
use sisa_messaging_rs.Prelude.Int.{◌≤ℤ◌, ◌<ℤ◌}
use sisa_messaging_rs.Core.Time.Date.{Date, lt_date}
use sisa_messaging_rs.Core.Store.{StoreError}
use sisa_messaging_rs.Core.Partition
use sisa_messaging_rs.Core.Partition.{PartitionInfo, PartitionInterval}
use sisa_messaging_rs.Postgres.Partitions.{
  holds, find_holder, gap_end, get_or_insert, Progress, noted, fill, days_between, fill_intervals,
}
use sisa_messaging_rs.Postgres.Partitions.Covered.{IsIn, gap_end-bounds}

pub record Attempt : Type 0 where
  pub from : Date
  pub to : Date
  pub answer : Result StoreError (Unit {0})

abbrev pub Answers : Type 0
Answers = List Attempt → Date → Date → Result StoreError (Unit {0})

abbrev pub create : Answers → Date → Date → Act (List Attempt) (Result StoreError (Unit {0}))
create answers day to w =
    (answers w day to, record { from = day; to = to; answer = answers w day to } ∷ w)

abbrev with_created :
    List PartitionInfo → Date → Date → Result StoreError (Unit {0}) → List PartitionInfo
with_created ps day to (ok u) = ps ++ (Partition.new [] day to ∷ [])
with_created ps day to (err e) = ps

-- The partitions that the database created, oldest first.
unfoldable pub created : List Attempt → List PartitionInfo
created [] = []
created (a ∷ w) = with_created (created w) a.from a.to a.answer

abbrev with_refusal : Option StoreError → Result StoreError (Unit {0}) → Option StoreError
with_refusal first (ok u) = first
with_refusal none (err e) = some e
with_refusal (some first) (err e) = some first

-- The first refusal in time.
unfoldable pub first_refusal : List Attempt → Option StoreError
first_refusal [] = none
first_refusal (a ∷ w) = with_refusal (first_refusal w) a.answer

get_or_insert_lem :
    (before first : Option StoreError) (e : StoreError)
    → before ≡ first
    → get_or_insert before e ≡ with_refusal first (err e)
get_or_insert_lem none none e h = refl
get_or_insert_lem none (some y) e h = absurd (cc h)
get_or_insert_lem (some x) none e h = absurd (cc h)
get_or_insert_lem (some x) (some y) e h = h

append_assoc : (xs ys zs : List PartitionInfo) → (xs ++ ys) ++ zs ≡ xs ++ (ys ++ zs)
append_assoc [] ys zs = refl
append_assoc (x ∷ xs) ys zs = cc (append_assoc xs ys zs)

module _ {W : Type 0} (create : Date → Date → Act W (Result StoreError (Unit {0}))) where
  -- What holds of the progress and the world after each call of `create` holds after the loops.
  module _ (P : Progress → W → Type 0)
      (keep : (day end : Date) (before : Progress) (w : W)
        → lt_date day end ≡ true
        → find_holder day before.0 ≡ none
        → P before w
        → P
            (noted create day
              (gap_end day end before.0)
              before
              (create day (gap_end day end before.0) w).0)
            (create day (gap_end day end before.0) w).1) where
    fill-keeps :
        (n : ℕ) (end day : Date) (before : Progress) (w : W)
        → P before w
        → P (fill create n end day before w).0 (fill create n end day before w).1
    unfolding fill
    fill-keeps zero end day before w p = p
    fill-keeps (suc n) end day before w p = elim (Bool-cases (lt_date day end)) [
      | inr e ↦ rw e p
      | inl e ↦ elim (Option-cases (find_holder day before.0)) [
        | inr (q, found) ↦ rw (e, found) (fill-keeps n end q.to before w p)
        | inl missing ↦
            let to = gap_end day end before.0 in
            let asked = create day to w in
            rw (e, missing)
              (fill-keeps n end to (noted create day to before asked.0) asked.1
                (keep day end before w e missing p))
      ]
    ]

    pub fill_intervals-keeps :
        (interval : PartitionInterval) (n : ℕ) (start : Date) (before : Progress) (w : W)
        → P before w
        → P
            (fill_intervals create interval n start before w).0
            (fill_intervals create interval n start before w).1
    unfolding fill_intervals
    fill_intervals-keeps interval zero start before w p = p
    fill_intervals-keeps interval (suc n) start before w p =
        let end = Partition.end_of interval start in
        let filled = fill create (days_between start end) end start before w in
        fill_intervals-keeps interval n end filled.0 filled.1
          (fill-keeps (days_between start end) end start before w p)

-- Each attempt is of a day at least, and of days that no partition held at the time.
abbrev pub AreGaps : List PartitionInfo → List Attempt → Type 0
AreGaps existing [] = Unit
AreGaps existing (a ∷ w) =
    (lt_date a.from a.to ≡ true)
    × ((d : Date) → IsIn a.from a.to d → any_of (holds d) (existing ++ created w) ≡ false)
    × AreGaps existing w

unheld :
    (day end d : Date) (ps : List PartitionInfo)
    → find_holder day ps ≡ none
    → day.days ≤ℤ d.days
    → d.days <ℤ (gap_end day end ps).days
    → any_of (holds d) ps ≡ false
unfolding find_holder gap_end
unheld day end d [] missing low high = refl
unheld day end d (p ∷ ps) missing low high =
    let rest = unheld day end d ps (ground arith) low (ground arith) in ground (arith, rest)

-- The code's list and first error are what the database did, and each attempt is of a gap.
pub record Agrees (existing : List PartitionInfo) (now : Progress) (w : List Attempt) : Type 0 where
  pub list : now.0 ≡ existing ++ created w
  pub error : now.1 ≡ first_refusal w
  pub gaps : AreGaps existing w

module _ (answers : Answers) (existing : List PartitionInfo) where
  create-Agrees :
      (day end : Date) (before : Progress) (w : List Attempt)
      → lt_date day end ≡ true
      → find_holder day before.0 ≡ none
      → Agrees existing before w
      → Agrees existing
          (noted
            (create answers)
            day
            (gap_end day end before.0)
            before
            (create answers day (gap_end day end before.0) w).0)
          (create answers day (gap_end day end before.0) w).1
  unfolding created first_refusal
  create-Agrees day end before w e missing a =
      let to = gap_end day end before.0 in
      let bounds = gap_end-bounds day end before.0 (ground arith) in
      let free = λ (d : Date) (inside : IsIn day to d).
        subst (λ ps. any_of (holds d) ps ≡ false) a.list
          (unheld day end d before.0 missing (ground arith) (ground arith)) in
      elim (Result-cases (answers w day to)) [
        | inl (u, h) ↦ record {
          list = rw h (
              ap (λ ps. ps ++ (Partition.new [] day to ∷ [])) a.list
              ∙ append_assoc existing (created w) (Partition.new [] day to ∷ []));
          error = rw h a.error;
          gaps = (ground (arith, bounds.0), free, a.gaps);
        }
        | inr (x, h) ↦ record {
          list = rw h a.list;
          error = rw h (get_or_insert_lem before.1 (first_refusal w) x a.error);
          gaps = (ground (arith, bounds.0), free, a.gaps);
        }
      ]

  pub fill_intervals-Agrees :
      (interval : PartitionInterval) (n : ℕ) (start : Date) (before : Progress) (w : List Attempt)
      → Agrees existing before w
      → Agrees existing
          (fill_intervals (create answers) interval n start before w).0
          (fill_intervals (create answers) interval n start before w).1
  fill_intervals-Agrees = fill_intervals-keeps (create answers) (Agrees existing) create-Agrees
