-- ===== src/Tests/Statements.antt =====
-- A name with a quote in it, and an inbox with one old partition.
use sisa_messaging_rs.Prelude.{◌≡◌, refl, true, [], ◌∷◌, ◌++◌, none, some, ok}
use sisa_messaging_rs.Prelude.Int.{pos, ◌+ℤ◌, ◌-ℤ◌, ◌*ℕ◌, div_euclid, rem_euclid}
use sisa_messaging_rs.Core.Time.Digits
use sisa_messaging_rs.Core.Time.Calendar.{
  date_from_days, days_from_date, year_of_era, days_before_year, month_from_march, calendar_month,
  days_in_month, is_leap,
}
use sisa_messaging_rs.Prelude.Text.{codes, bytes}
use sisa_messaging_rs.Core.Time.Date
use sisa_messaging_rs.Core.Time.Date.{Date, le_date}
use sisa_messaging_rs.Core.Partition
use sisa_messaging_rs.Core.Partition.{PartitionInfo}
use sisa_messaging_rs.Postgres.Partitions.Statements
use sisa_messaging_rs.Postgres.Partitions.Statements.{
  Sql, inbox, quoted, partitions, older, expirable,
}
use sisa_messaging_rs.Postgres.Partitions.Statements.Quoted.{identifier, identifier-quoted}

identifier-quoted_example :
    identifier (quoted (codes "a\"b") ++ codes ", c") ≡ some (codes "a\"b", codes ", c")
identifier-quoted_example = identifier-quoted (codes "a\"b") (codes ", c") refl

test_quoted : quoted (codes "a\"b") ≡ codes "\"a\"\"b\""
unfolding quoted
test_quoted = refl

-- One partition, as PostgreSQL lists it.
abbrev sql : Sql (Unit {0})
sql = record {
  list = λ table w. (ok ((codes "p", codes "2023-11-14", codes "2023-11-15") ∷ []), w);
  execute = λ statement w. (ok tt, w);
  count_unsent = λ statement w. (ok (pos 0, pos 0), w);
  acquire = λ w. (ok tt, w);
  try_advisory_lock = λ name w. (ok true, w);
  close = λ w. (tt, w);
  default_partition = λ table w. (ok none, w);
  count = λ statement w. (ok (pos 0), w);
  begin = λ w. (ok tt, w);
  commit = λ w. (ok tt, w);
  show = λ e. [];
}

abbrev day : Date
day = record { days = pos 19_675 }

abbrev old : PartitionInfo
old = Partition.new (codes "p") day (record { days = pos 19_676 })

abbrev limit : Date
limit = record { days = pos 19_676 }

test_expirable : (expirable sql inbox limit tt).0 ≡ ok (old ∷ [])
unfolding expirable partitions Statements.read_all Statements.date Statements.older Date.from_str
    Date.parse_date Date.new Date.year Date.month Date.day date_from_days days_from_date year_of_era
    days_before_year month_from_march calendar_month days_in_month is_leap ◌+ℤ◌ ◌-ℤ◌ ◌*ℕ◌ div_euclid
    rem_euclid Digits.number Digits.fold_digits bytes
test_expirable = refl
