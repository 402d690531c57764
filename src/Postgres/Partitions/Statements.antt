-- ===== src/Postgres/Partitions/Statements.antt =====
-- crates/postgres/src/partitions.rs: the statements on a table's partitions, as the texts that are
-- sent. What PostgreSQL answers to them is a parameter, and so are the errors' texts.
pub mod Quoted
pub mod Expirable
use sisa_messaging_rs.Prelude.{
  ℕ, Bool, true, false, List, [], ◌∷◌, ◌++◌, Option, none, some, Result, ok, err, map_err, String,
  ◌==◌, map, ◌>>=◌ as ◌>>!◌, if◌then◌else◌,
}
use sisa_messaging_rs.Prelude.Acts.{Act, pure, ◌>>=◌, ◌>>?◌}
use sisa_messaging_rs.Prelude.Int.{ℤ, abs_ℕ}
use sisa_messaging_rs.Prelude.Text.{Text, codes}
use sisa_messaging_rs.Core.Error.{EnvelopeError}
use sisa_messaging_rs.Core.Time.Date
use sisa_messaging_rs.Core.Time.Date.{Date, le_date}
use sisa_messaging_rs.Core.Store.{StoreError, database}
use sisa_messaging_rs.Core.Partition
use sisa_messaging_rs.Core.Partition.{
  PartitionInterval, Expiry, detach, drop_table, PartitionInfo, PartitionStore,
}
use sisa_messaging_rs.Postgres.Partitions.{ensure_partitions}

pub data Table : Type 0 where
  outbox inbox : Table

unfoldable pub table_name : Table → Text
table_name outbox = codes "outbox_messages"
table_name inbox = codes "inbox_receipts"

-- `str::replace` of a character by a text.
abbrev pub replace : ℕ → Text → Text → Text
replace c by [] = []
replace c by (d ∷ s) = let rest = replace c by s in if d == c then by ++ rest else d ∷ rest

-- A name in double quotes.
unfoldable pub quoted : Text → Text
quoted name = 34 ∷ (replace 34 (34 ∷ (34 ∷ [])) name ++ (34 ∷ []))

-- PostgreSQL's answers: the rows of `PARTITIONS`; the texts of statements, on the pool or in a
-- transaction; the counts; the lock; and the `Display` of the code's own errors.
pub record Sql (W : Type 0) : Type 0 where
  pub list : Text → Act W (Result Text (List (Text × Text × Text)))
  pub execute : Text → Act W (Result Text (Unit {0}))
  pub count_unsent : Text → Act W (Result Text (ℤ × ℤ))
  pub acquire : Act W (Result Text (Unit {0}))
  pub try_advisory_lock : Text → Act W (Result Text Bool)
  pub close : Act W (Unit {0})
  pub default_partition : Text → Act W (Result Text (Option Text))
  pub count : Text → Act W (Result Text ℤ)
  pub begin : Act W (Result Text (Unit {0}))
  pub commit : Act W (Result Text (Unit {0}))
  pub show : EnvelopeError → Text

abbrev lock_timeout : Text
lock_timeout = codes "SET LOCAL lock_timeout = '10s'"

-- The name of the partition that starts on a day.
unfoldable pub partition_name : Table → Date → Text
partition_name table from = table_name table ++ (codes "_p" ++ replace 45 [] (Date.to_string from))

unfoldable pub create_sql : Table → Date → Date → Text
create_sql table from to =
    codes "CREATE TABLE "
    ++ (quoted (partition_name table from)
        ++ (codes " PARTITION OF "
            ++ (table_name table
                ++ (codes " FOR VALUES FROM ('"
                    ++ (Date.to_string from
                        ++ (codes " 00:00+00') TO ('"
                            ++ (Date.to_string to ++ codes " 00:00+00')")))))))

unfoldable pub count_sql : PartitionInfo → Text
count_sql p =
    codes
      "SELECT count(*) FILTER (WHERE status = 'pending'), count(*) FILTER (WHERE status = 'failed') FROM "
    ++ quoted p.name

unfoldable pub older : Date → List PartitionInfo → List PartitionInfo
older than [] = []
older than (p ∷ ps) = let rest = older than ps in if le_date p.to than then p ∷ rest else rest

abbrev pub is_outbox : Table → Bool
is_outbox outbox = true
is_outbox inbox = false

unfoldable pub expire_sql : Table → PartitionInfo → Expiry → Text
expire_sql table p drop_table = codes "DROP TABLE " ++ quoted p.name
expire_sql table p detach =
    codes "ALTER TABLE " ++ (table_name table ++ (codes " DETACH PARTITION " ++ quoted p.name))

abbrev pub with_counts : PartitionInfo → ℤ × ℤ → PartitionInfo
with_counts p (pending, failed) = record p { pending = abs_ℕ pending; failed = abs_ℕ failed }

module _ {W : Type 0} (sql : Sql W) where
  abbrev failing : {A : Type 0} → String → Act W (Result Text A) → Act W (Result StoreError A)
  failing context m = do r ← m; pure (map_err (database context) r)

  unfoldable pub date : Text → Result StoreError Date
  date text =
      map_err (λ e. database "reading a partition's bounds" (sql.show e)) (Date.from_str text)

  unfoldable pub read_all : List (Text × Text × Text) → Result StoreError (List PartitionInfo)
  read_all [] = ok []
  read_all ((name, from, to) ∷ rows) = date from >>! λ first.
      date to >>! λ last. read_all rows >>! λ rest. ok (Partition.new name first last ∷ rest)

  unfoldable pub partitions : Table → Act W (Result StoreError (List PartitionInfo))
  unfolding read_all
  partitions table = failing "listing the partitions" (sql.list (table_name table)) >>? λ rows.
      pure (read_all rows)

  unfoldable pub create : Table → Date → Date → Act W (Result StoreError (Unit {0}))
  create table from to = failing "creating a partition" (sql.execute (create_sql table from to))

  unfoldable pub count_unsent : PartitionInfo → Act W (Result StoreError PartitionInfo)
  count_unsent p =
      failing "counting a partition's unsent rows" (sql.count_unsent (count_sql p)) >>? λ counts.
      pure (ok (with_counts p counts))

  -- The loop of `expirable` over an outbox's partitions.
  unfoldable pub count_all : List PartitionInfo → Act W (Result StoreError (List PartitionInfo))
  unfolding count_unsent
  count_all [] = pure (ok [])
  count_all (p ∷ ps) = count_unsent p >>? λ q. count_all ps >>? λ qs. pure (ok (q ∷ qs))

  unfoldable pub expirable : Table → Date → Act W (Result StoreError (List PartitionInfo))
  expirable table than = partitions table >>? λ all.
      if is_outbox table then count_all (older than all) else pure (ok (older than all))

  unfoldable pub expire : Table → PartitionInfo → Expiry → Act W (Result StoreError (Unit {0}))
  expire table p mode = failing "expiring a partition" sql.begin >>? λ _.
      failing "expiring a partition" (sql.execute lock_timeout) >>? λ _.
      failing "expiring a partition" (sql.execute (expire_sql table p mode)) >>? λ _.
      failing "expiring a partition" sql.commit

  unfoldable pub try_lock : Table → Act W (Result StoreError (Option (Unit {0})))
  try_lock table = failing "taking the partition lock" sql.acquire >>? λ _.
      failing "taking the partition lock" (sql.try_advisory_lock (table_name table)) >>? λ locked.
      pure (ok (if locked then some tt else none))

  unfoldable pub default_rows : Table → Act W (Result StoreError ℕ)
  default_rows table =
      failing "finding the default partition" (sql.default_partition (table_name table))
      >>? λ found. elim found [
        | none ↦ pure (ok 0)
        | some name ↦
            (failing "counting the default partition's rows"
                (sql.count (codes "SELECT count(*) FROM " ++ name))
              >>? λ rows. pure (ok (abs_ℕ rows)))
      ]

  abbrev pub postgres_partitions : Table → PartitionStore W
  postgres_partitions table = record {
    try_lock = try_lock table;
    unlock = sql.close;
    ensure_partitions = ensure_partitions (create table) (partitions table);
    default_rows = default_rows table;
    expirable = expirable table;
    expire = expire table;
  }
