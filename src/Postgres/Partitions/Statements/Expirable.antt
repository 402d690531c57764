-- ===== src/Postgres/Partitions/Statements/Expirable.antt =====
-- crates/postgres/src/partitions.rs: which partitions may be expired.
use sisa_messaging_rs.Prelude.{
  ◌≡◌, refl, ap, sym, ◌∙◌, Bool, true, false, List, [], ◌∷◌, ok, map, Bool-cases, inl, inr,
  if◌then◌else◌,
}
use sisa_messaging_rs.Prelude.Lists.{All}
use sisa_messaging_rs.Prelude.Acts.{pure, ◌>>?◌, >>?-cases}
use sisa_messaging_rs.Prelude.Text.{Text}
use sisa_messaging_rs.Core.Time.Date.{Date, le_date}
use sisa_messaging_rs.Core.Partition.{PartitionInfo}
use sisa_messaging_rs.Postgres.Partitions.Statements.{
  Table, Sql, partitions, failing, count_sql, with_counts, count_unsent, count_all, older,
  expirable, is_outbox,
}

-- A partition without its counts.
abbrev pub bounds : PartitionInfo → Text × Date × Date
bounds p = (p.name, p.from, p.to)

older-le :
    (than : Date) (ps : List PartitionInfo) → All (λ p. le_date p.to than ≡ true) (older than ps)
unfolding older
older-le than [] = tt
older-le than (p ∷ ps) = elim (Bool-cases (le_date p.to than)) [
  | inl e ↦ rw e (e, older-le than ps)
  | inr e ↦ rw e (older-le than ps)
]

-- Partitions with the bounds of older ones are older.
bounds-le :
    (than : Date) (ps qs : List PartitionInfo)
    → map bounds qs ≡ map bounds ps
    → All (λ p. le_date p.to than ≡ true) ps
    → All (λ p. le_date p.to than ≡ true) qs
bounds-le than [] [] h a = tt
bounds-le than [] (q ∷ qs) h a = absurd (cc h)
bounds-le than (p ∷ ps) [] h a = absurd (cc h)
bounds-le than (p ∷ ps) (q ∷ qs) h a =
    let same : bounds q ≡ bounds p = cc h in
    let rest : map bounds qs ≡ map bounds ps = cc h in
    (ap (λ b. le_date b.2 than) same ∙ a.0, bounds-le than ps qs rest a.1)

module _ {W : Type 0} (sql : Sql W) where
  count_unsent-bounds :
      (p q : PartitionInfo) (w : W) → (count_unsent sql p w).0 ≡ ok q → bounds q ≡ bounds p
  unfolding count_unsent
  count_unsent-bounds p q w =
      >>?-cases (λ x. x.0 ≡ ok q → bounds q ≡ bounds p)
        (failing sql "counting a partition's unsent rows" (sql.count_unsent (count_sql p)))
        (λ counts. pure (ok (with_counts p counts))) w
        (λ a e h. let same : with_counts p a ≡ q = cc h in ap bounds (sym same))
        (λ e _ h. absurd (cc h))

  count_all-bounds :
      (ps qs : List PartitionInfo) (w : W)
      → (count_all sql ps w).0 ≡ ok qs
      → map bounds qs ≡ map bounds ps
  unfolding count_all
  count_all-bounds [] qs w = λ h. let same : [] ≡ qs = cc h in ap (map bounds) (sym same)
  count_all-bounds (p ∷ ps) qs w =
      >>?-cases (λ x. x.0 ≡ ok qs → map bounds qs ≡ map bounds (p ∷ ps)) (count_unsent sql p)
        (λ q. count_all sql ps >>? λ rest. pure (ok (q ∷ rest))) w
        (λ q e.
          >>?-cases (λ x. x.0 ≡ ok qs → map bounds qs ≡ map bounds (p ∷ ps)) (count_all sql ps)
            (λ rest. pure (ok (q ∷ rest))) (count_unsent sql p w).1
            (λ rest f h.
              let same : q ∷ rest ≡ qs = cc h in
              let here = count_unsent-bounds p q w e in
              let below = count_all-bounds ps rest (count_unsent sql p w).1 f in
              ap (map bounds) (sym same) ∙ rw (here, below) refl)
            (λ x _ h. absurd (cc h)))
        (λ x _ h. absurd (cc h))

  -- The partitions that may be expired are those of the table's list that end at the given date
  -- or before, in order and with the bounds that the list has, whatever the counts of an outbox's are.
  pub expirable-older :
      (table : Table) (than : Date) (w : W) (ps : List PartitionInfo)
      → (expirable sql table than w).0 ≡ ok ps
      → ((all : List PartitionInfo) × ((partitions sql table w).0 ≡ ok all)
          × (map bounds ps ≡ map bounds (older than all)))
        × All (λ p. le_date p.to than ≡ true) ps
  unfolding expirable
  expirable-older table than w ps =
      >>?-cases
        (λ x.
          x.0 ≡ ok ps
          → ((all : List PartitionInfo) × ((partitions sql table w).0 ≡ ok all)
              × (map bounds ps ≡ map bounds (older than all)))
            × All (λ p. le_date p.to than ≡ true) ps)
        (partitions sql table)
        (λ all.
          if is_outbox table then count_all sql (older than all) else pure (ok (older than all)))
        w (λ all e. by_table all e (is_outbox table)) (λ x _ h. absurd (cc h))
    where
      by_table :
          (all : List PartitionInfo)
          → (partitions sql table w).0 ≡ ok all
          → (b : Bool)
          → ((if b then count_all sql (older than all) else pure {W = W} (ok (older than all)))
              (partitions sql table w).1).0
            ≡ ok ps
          → ((all : List PartitionInfo) × ((partitions sql table w).0 ≡ ok all)
              × (map bounds ps ≡ map bounds (older than all)))
            × All (λ p. le_date p.to than ≡ true) ps
      by_table all e true h =
          let same = count_all-bounds (older than all) ps (partitions sql table w).1 h in
          ((all, e, same), bounds-le than (older than all) ps same (older-le than all))
      by_table all e false h =
          let listed : older than all ≡ ps = cc h in
          let same = ap (map bounds) (sym listed) in
          ((all, e, same), bounds-le than (older than all) ps same (older-le than all))
