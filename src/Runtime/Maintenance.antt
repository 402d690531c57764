-- ===== src/Runtime/Maintenance.antt =====
-- crates/runtime/src/maintenance.rs: one run of the partition maintenance worker. What it logs is
-- left out.
pub mod Locked
pub mod Run
use sisa_messaging_rs.Prelude.{
  ℕ, zero, suc, ◌-◌, ◌^◌, ◌+◌, Bool, List, [], ◌∷◌, Option, none, some, Result, ok, err, ltb, ◌||◌,
  if◌then◌else◌, min,
}
use sisa_messaging_rs.Prelude.Acts.{Act, pure, ◌>>=◌, ◌>>?◌}
use sisa_messaging_rs.Prelude.Int.{pos, neg_ℤ}
use sisa_messaging_rs.Core.Time.Date.{Date, add_days}
use sisa_messaging_rs.Core.Store.{StoreError}
use sisa_messaging_rs.Core.Partition
use sisa_messaging_rs.Core.Partition.{
  PartitionInterval, Expiry, detach, PartitionInfo, PartitionStore,
}

pub data PartitionMode : Type 0 where
  managed external : PartitionMode

pub record PartitionSettings : Type 0 where
  pub partitions : PartitionMode
  pub interval : PartitionInterval
  pub ahead : ℕ
  pub retention_days : Option ℕ
  pub on_expiry : Expiry

abbrev pub default : PartitionSettings
default = record {
  partitions = managed;
  interval = Partition.day;
  ahead = 7;
  retention_days = none;
  on_expiry = detach;
}

-- `settings.ahead.saturating_add(1)` of a `u32`.
unfoldable pub partition_count : PartitionSettings → ℕ
partition_count settings = min (settings.ahead + 1) (2 ^ 32 - 1)

abbrev pub holds_unsent : PartitionInfo → Bool
holds_unsent p = ltb 0 p.pending || ltb 0 p.failed

module _ {W : Type 0} (store : PartitionStore W) (settings : PartitionSettings) where
  -- The loop over the partitions past their retention; an error is logged and the loop goes on.
  unfoldable pub expire_all : List PartitionInfo → Act W (Unit {0})
  expire_all [] = pure tt
  expire_all (p ∷ ps) =
      let rest = expire_all ps in
      if holds_unsent p then rest else (store.expire p settings.on_expiry >>= λ _. rest)

  unfoldable pub retain : Date → Option ℕ → Act W (Result StoreError (Unit {0}))
  retain today none = pure (ok tt)
  retain today (some days) = store.expirable (add_days today (neg_ℤ (pos days))) >>? λ partitions.
      expire_all partitions >>= λ _. pure (ok tt)

  -- The run under the lock; a partition that could not be created is logged.
  unfoldable pub maintain_locked : Date → Act W (Result StoreError (Unit {0}))
  unfolding retain
  maintain_locked today = do
    created ← store.ensure_partitions settings.interval today (partition_count settings)
    store.default_rows >>? λ rows. retain today settings.retention_days

  unfoldable pub unlocked : Date → Option (Unit {0}) → Act W (Result StoreError (Unit {0}))
  unfolding maintain_locked
  unlocked today none = pure (ok tt)
  unlocked today (some lock) = do
    result ← maintain_locked today
    dropped ← store.unlock
    pure result

  unfoldable pub maintain : Date → Act W (Result StoreError (Unit {0}))
  unfolding unlocked
  maintain today = store.try_lock >>? unlocked today
