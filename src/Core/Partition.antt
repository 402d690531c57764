-- ===== src/Core/Partition.antt =====
-- crates/core/src/partition.rs: intervals, and what the maintenance worker asks of a store.
pub mod Holds
pub mod Same
use sisa_messaging_rs.Prelude.{ℕ, List, Option, Result}
use sisa_messaging_rs.Prelude.Acts.{Act}
use sisa_messaging_rs.Prelude.Int.{pos}
use sisa_messaging_rs.Prelude.Text.{Text}
use sisa_messaging_rs.Core.Time.Date.{Date, add_days, monday, first_of_month, first_of_next_month}
use sisa_messaging_rs.Core.Store.{StoreError}

pub data PartitionInterval : Type 0 where
  day week month : PartitionInterval

unfoldable pub start : PartitionInterval → Date → Date
start day date = date
start week date = monday date
start month date = first_of_month date

unfoldable pub end_of : PartitionInterval → Date → Date
end_of day date = add_days date (pos 1)
end_of week date = add_days (monday date) (pos 7)
end_of month date = first_of_next_month date

pub data Expiry : Type 0 where
  detach drop_table : Expiry

pub record PartitionInfo : Type 0 where
  pub name : Text
  pub from : Date
  pub to : Date
  pub pending : ℕ
  pub failed : ℕ

abbrev pub new : Text → Date → Date → PartitionInfo
new name from to = record { name = name; from = from; to = to; pending = 0; failed = 0 }

pub record PartitionStore (W : Type 0) : Type 0 where
  pub try_lock : Act W (Result StoreError (Option (Unit {0})))
  pub unlock : Act W (Unit {0})  -- the drop of a `PartitionLock`
  pub ensure_partitions : PartitionInterval → Date → ℕ → Act W (Result StoreError (Unit {0}))
  pub default_rows : Act W (Result StoreError ℕ)
  pub expirable : Date → Act W (Result StoreError (List PartitionInfo))
  pub expire : PartitionInfo → Expiry → Act W (Result StoreError (Unit {0}))
