-- ===== src/Postgres/Partitions/Apart.antt =====
-- crates/postgres/src/partitions.rs: the partitions that `ensure_partitions` creates fit between
-- those that are there.
use sisa_messaging_rs.Prelude.{
  ℕ, zero, suc, ◌≡◌, ◌⊎◌, inl, inr, List, [], ◌∷◌, ◌++◌, none, Result, ok, err, arith, Bool-cases,
  Option-cases,
}
use sisa_messaging_rs.Prelude.Lists.{All}
use sisa_messaging_rs.Prelude.Acts.{Act}
use sisa_messaging_rs.Prelude.Int.{◌≤ℤ◌}
use sisa_messaging_rs.Core.Time.Date.{Date, lt_date}
use sisa_messaging_rs.Core.Store.{StoreError}
use sisa_messaging_rs.Core.Partition
use sisa_messaging_rs.Core.Partition.{PartitionInfo, PartitionInterval}
use sisa_messaging_rs.Postgres.Partitions.{
  find_holder, gap_end, Progress, noted, fill, days_between, fill_intervals,
}

-- One ends before the other starts.
abbrev pub IsApart : PartitionInfo → PartitionInfo → Type 0
IsApart p q = (p.to.days ≤ℤ q.from.days) ⊎ (q.to.days ≤ℤ p.from.days)

abbrev pub AreApart : List PartitionInfo → Type 0
AreApart [] = Unit
AreApart (p ∷ ps) = All (IsApart p) ps × AreApart ps

All-last :
    (P : PartitionInfo → Type 0) (ps : List PartitionInfo) (q : PartitionInfo)
    → All P ps
    → P q
    → All P (ps ++ (q ∷ []))
All-last P [] q h k = (k, tt)
All-last P (p ∷ ps) q (h, hs) k = (h, All-last P ps q hs k)

AreApart-last :
    (ps : List PartitionInfo) (q : PartitionInfo)
    → AreApart ps
    → All (λ p. IsApart p q) ps
    → AreApart (ps ++ (q ∷ []))
AreApart-last [] q a h = (tt, tt)
AreApart-last (p ∷ ps) q (a, as') (h, hs) =
    (All-last (IsApart p) ps q a h, AreApart-last ps q as' hs)

abbrev gap : Date → Date → PartitionInfo
gap day to = Partition.new [] day to

-- A day that no partition holds, up to the next partition's start at most, is apart from all.
gap-IsApart :
    (day end to : Date) (ps : List PartitionInfo)
    → find_holder day ps ≡ none
    → to.days ≤ℤ (gap_end day end ps).days
    → All (λ p. IsApart p (gap day to)) ps
unfolding find_holder gap_end
gap-IsApart day end to [] missing short = tt
gap-IsApart day end to (p ∷ ps) missing short =
    (ground arith, gap-IsApart day end to ps (ground arith) (ground arith))

module _ {W : Type 0} (create : Date → Date → Act W (Result StoreError (Unit {0}))) where
  noted-AreApart :
      (day end : Date) (before : Progress) (r : Result StoreError (Unit {0}))
      → find_holder day before.0 ≡ none
      → AreApart before.0
      → AreApart (noted create day (gap_end day end before.0) before r).0
  noted-AreApart day end (existing, first) (ok u) missing apart =
      let to = gap_end day end existing in
      AreApart-last existing (gap day to) apart
        (gap-IsApart day end to existing missing (omega arith))
  noted-AreApart day end (existing, first) (err x) missing apart = apart

  fill-AreApart :
      (n : ℕ) (end day : Date) (before : Progress) (w : W)
      → AreApart before.0
      → AreApart (fill create n end day before w).0.0
  unfolding fill
  fill-AreApart zero end day before w apart = apart
  fill-AreApart (suc n) end day before w apart = elim (Bool-cases (lt_date day end)) [
    | inr e ↦ rw e apart
    | inl e ↦ elim (Option-cases (find_holder day before.0)) [
      | inr (p, found) ↦ rw (e, found) (fill-AreApart n end p.to before w apart)
      | inl missing ↦
          let to = gap_end day end before.0 in
          let created = create day to w in
          rw (e, missing)
            (fill-AreApart n end to (noted create day to before created.0) created.1
              (noted-AreApart day end before created.0 missing apart))
    ]
  ]

  -- If no two partitions that are there overlap, then no two of those and the ones that filling some
  -- intervals creates do, whatever fails.
  pub fill_intervals-AreApart :
      (interval : PartitionInterval) (n : ℕ) (start : Date) (before : Progress) (w : W)
      → AreApart before.0
      → AreApart (fill_intervals create interval n start before w).0.0
  unfolding fill_intervals
  fill_intervals-AreApart interval zero start before w apart = apart
  fill_intervals-AreApart interval (suc n) start before w apart =
      let end = Partition.end_of interval start in
      let filled = fill create (days_between start end) end start before w in
      fill_intervals-AreApart interval n end filled.0 filled.1
        (fill-AreApart (days_between start end) end start before w apart)
