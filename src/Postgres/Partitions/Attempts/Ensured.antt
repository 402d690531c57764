-- ===== src/Postgres/Partitions/Attempts/Ensured.antt =====
-- crates/postgres/src/partitions.rs: what `ensure_partitions` leaves in the database.
use sisa_messaging_rs.Prelude.{
  ℕ, ◌≡◌, refl, sym, subst, List, [], ◌∷◌, ◌++◌, Option, none, some, Result, ok, err,
}
use sisa_messaging_rs.Prelude.Acts.{Act}
use sisa_messaging_rs.Core.Time.Date.{Date}
use sisa_messaging_rs.Core.Store.{StoreError}
use sisa_messaging_rs.Core.Partition
use sisa_messaging_rs.Core.Partition.{PartitionInfo, PartitionInterval}
use sisa_messaging_rs.Postgres.Partitions.{Progress, answer_of, fill_intervals, ensure_partitions}
use sisa_messaging_rs.Postgres.Partitions.Covered.{IsIn, horizon}
use sisa_messaging_rs.Postgres.Partitions.Attempts.Reached.{IsReached, fill_intervals-Reached}
use sisa_messaging_rs.Postgres.Partitions.Apart.{AreApart, fill_intervals-AreApart}
use sisa_messaging_rs.Postgres.Partitions.Attempts.{
  Attempt, Answers, create, created, first_refusal, AreGaps, Agrees, fill_intervals-Agrees,
}

-- The listing of the partitions, which attempts nothing.
abbrev pub listed :
    Result StoreError (List PartitionInfo)
    → Act (List Attempt) (Result StoreError (List PartitionInfo))
listed listing w = (listing, w)

-- `Ok`, or the error that is there.
abbrev pub told : Option StoreError → Result StoreError (Unit {0})
told none = ok tt
told (some e) = err e

answer_of-told : (first : Option StoreError) → answer_of first ≡ told first
answer_of-told none = refl
answer_of-told (some e) = refl

-- The answer and the attempts, by what the listing answered.
pub data Ensures (interval : PartitionInterval) (from : Date) (count : ℕ)
    : Result StoreError (List PartitionInfo)
      → Result StoreError (Unit {0}) × List Attempt
      → Type 0 where
  unlisted : (e : StoreError) → Ensures interval from count (err e) (err e, [])
  filled :
      (existing : List PartitionInfo) (w : List Attempt)
      → AreGaps existing w
      → ((d : Date)
          → IsIn
              (Partition.start interval from)
              (horizon interval count (Partition.start interval from))
              d
          → IsReached (existing ++ created w) w d)
      → Ensures interval from count (ok existing) (told (first_refusal w), w)

append_none : (ps : List PartitionInfo) → ps ≡ ps ++ []
append_none [] = refl
append_none (p ∷ ps) = cc (append_none ps)

module _ (answers : Answers) (interval : PartitionInterval) (from : Date) (count : ℕ) where
  abbrev pub ensured :
      Result StoreError (List PartitionInfo) → Result StoreError (Unit {0}) × List Attempt
  ensured listing = ensure_partitions (create answers) (listed listing) interval from count []

  looped : List PartitionInfo → Progress × List Attempt
  looped existing =
      fill_intervals (create answers) interval count (Partition.start interval from)
        (existing, none) []

  looped-Agrees :
      (existing : List PartitionInfo) → Agrees existing (looped existing).0 (looped existing).1
  unfolding looped created first_refusal
  looped-Agrees existing =
      fill_intervals-Agrees answers existing interval count (Partition.start interval from)
        (existing, none) [] (record { list = append_none existing; error = refl; gaps = tt })

  looped-ensured :
      (existing : List PartitionInfo)
      → ensured (ok existing) ≡ (told (first_refusal (looped existing).1), (looped existing).1)
  unfolding ensure_partitions looped
  looped-ensured existing =
      rw (ensure_partitions, (looped-Agrees existing).error, answer_of-told) refl

  -- A failed listing is the answer, and nothing is attempted. Otherwise each attempt is of a day at
  -- least and of days that no partition held when it was made, the answer is the database's first refusal, or `Ok` if it refused nothing, and each day from
  -- the start of the date's interval to the end of the last interval is in a partition of the listing,
  -- or in one that the database created, or in a stretch that it refused to create.
  pub ensure_partitions-Ensures :
      (listing : Result StoreError (List PartitionInfo))
      → Ensures interval from count listing (ensured listing)
  unfolding ensure_partitions looped
  ensure_partitions-Ensures (err e) = unlisted e
  ensure_partitions-Ensures (ok existing) =
      let a = looped-Agrees existing in
      let start = Partition.start interval from in
      let f = fill_intervals-Reached answers interval count start (existing, none) [] in
      subst (Ensures interval from count (ok existing)) (sym (looped-ensured existing)) (
        filled existing (looped existing).1 a.gaps
          λ d inside. subst (λ ps. IsReached ps (looped existing).1 d) a.list (f.covered d inside))

  -- If no two partitions of the listing overlap, then no two of those and the ones that the database
  -- created do, whatever it refused.
  pub ensure_partitions-AreApart :
      (existing : List PartitionInfo)
      → AreApart existing
      → AreApart (existing ++ created (ensured (ok existing)).1)
  unfolding ensure_partitions looped
  ensure_partitions-AreApart existing apart =
      let start = Partition.start interval from in
      subst AreApart (looped-Agrees existing).list
        (fill_intervals-AreApart (create answers) interval count start (existing, none) [] apart)
