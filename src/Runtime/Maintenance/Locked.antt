-- ===== src/Runtime/Maintenance/Locked.antt =====
-- crates/runtime/src/maintenance.rs: the calls of a run, over any store. `Free` and `Held` say of
-- the store's state whether this instance holds the lock; `IsListed` says of a partition that the
-- store listed it.
use sisa_messaging_rs.Prelude.{
  ℕ, ◌≡◌, refl, List, [], ◌∷◌, Option, none, some, ok, arith, Bool-cases, inl, inr, ◌≢◌,
}
use sisa_messaging_rs.Prelude.Lists.{All}
use sisa_messaging_rs.Prelude.Acts.{pure, ◌>>=◌, >>?-cases}
use sisa_messaging_rs.Prelude.Int.{pos, neg_ℤ}
use sisa_messaging_rs.Core.Time.Date.{Date, add_days}
use sisa_messaging_rs.Core.Partition.{PartitionInfo, PartitionStore}
use sisa_messaging_rs.Runtime.Maintenance.{
  PartitionSettings, partition_count, holds_unsent, expire_all, retain, maintain_locked, unlocked,
  maintain,
}

-- What a store may ask of its caller: the lock is taken and dropped, the rest is called while it
-- is held, `ensure_partitions` for the current interval and those ahead, and `expire` only for a
-- listed partition without pending or failed rows, in the settings' mode.
pub record Obeyed {W : Type 0} (store : PartitionStore W) (settings : PartitionSettings)
    (today : Date) (Free Held : W → Type 0) (IsListed : PartitionInfo → Type 0) : Type 0 where
  pub not_locked :
      (w : W) → Free w → (store.try_lock w).0 ≢ ok (some tt) → Free (store.try_lock w).1
  pub locked : (w : W) → Free w → (store.try_lock w).0 ≡ ok (some tt) → Held (store.try_lock w).1
  pub dropped : (w : W) → Held w → Free (store.unlock w).1
  pub ensured :
      (w : W)
      → Held w
      → Held (store.ensure_partitions settings.interval today (partition_count settings) w).1
  pub counted : (w : W) → Held w → Held (store.default_rows w).1
  pub listed_held :
      (w : W) (days : ℕ)
      → settings.retention_days ≡ some days
      → Held w
      → Held (store.expirable (add_days today (neg_ℤ (pos days))) w).1
  pub listed :
      (w : W) (days : ℕ) (ps : List PartitionInfo)
      → settings.retention_days ≡ some days
      → (store.expirable (add_days today (neg_ℤ (pos days))) w).0 ≡ ok ps
      → All IsListed ps
  pub expired :
      (w : W) (p : PartitionInfo)
      → Held w
      → IsListed p
      → p.pending ≡ 0
      → p.failed ≡ 0
      → Held (store.expire p settings.on_expiry w).1

module _ {W : Type 0} (store : PartitionStore W) (settings : PartitionSettings) (today : Date)
    (Free Held : W → Type 0) (IsListed : PartitionInfo → Type 0)
    (obeyed : Obeyed store settings today Free Held IsListed) where
  expire_all-Held :
      (ps : List PartitionInfo) (w : W)
      → All IsListed ps
      → Held w
      → Held (expire_all store settings ps w).1
  unfolding expire_all
  expire_all-Held [] w listed held = held
  expire_all-Held (p ∷ ps) w (first, rest) held = elim (Bool-cases (holds_unsent p)) [
    | inl e ↦ rw e (expire_all-Held ps w rest held)
    | inr e ↦
        rw (e, ◌>>=◌)
          (expire_all-Held ps (store.expire p settings.on_expiry w).1 rest
            (obeyed.expired w p held first (ground arith) (ground arith)))
  ]

  retain-Held :
      (days : Option ℕ) (w : W)
      → settings.retention_days ≡ days
      → Held w
      → Held (retain store settings today days w).1
  unfolding retain
  retain-Held none w e held = held
  retain-Held (some days) w e held =
      >>?-cases (λ r. Held r.1) (store.expirable (add_days today (neg_ℤ (pos days))))
        (λ ps. expire_all store settings ps >>= λ _. pure (ok tt)) w
        (λ ps answered.
          expire_all-Held ps (store.expirable (add_days today (neg_ℤ (pos days))) w).1
            (obeyed.listed w days ps e answered) (obeyed.listed_held w days e held))
        (λ _ _. obeyed.listed_held w days e held)

  maintain_locked-Held : (w : W) → Held w → Held (maintain_locked store settings today w).1
  unfolding maintain_locked
  maintain_locked-Held w held =
      >>?-cases (λ r. Held r.1) store.default_rows
        (λ rows. retain store settings today settings.retention_days) w'
        (λ _ _. retain-Held settings.retention_days (store.default_rows w').1 refl counted)
        (λ _ _. counted)
    where
      w' : W
      w' = (store.ensure_partitions settings.interval today (partition_count settings) w).1

      counted : Held (store.default_rows w').1
      counted = obeyed.counted w' (obeyed.ensured w held)

  unlocked-Free :
      (lock : Option (Unit {0})) (w : W)
      → (store.try_lock w).0 ≡ ok lock
      → Free w
      → Free (unlocked store settings today lock (store.try_lock w).1).1
  unfolding unlocked
  unlocked-Free none w e free = obeyed.not_locked w free (λ h. cc)
  unlocked-Free (some tt) w e free =
      obeyed.dropped _ (maintain_locked-Held (store.try_lock w).1 (obeyed.locked w free e))

  -- A store that is free when a run starts is free when it ends, for every `Free`, `Held` and
  -- `IsListed` that its operations respect as `Obeyed` says, whatever it answers: a run asks for the
  -- lock first and drops it on every path, and while it has the lock it expires only partitions that
  -- were listed and have no pending and no failed rows.
  pub maintain-Free : (w : W) → Free w → Free (maintain store settings today w).1
  unfolding maintain
  maintain-Free w free =
      >>?-cases (λ r. Free r.1) store.try_lock (unlocked store settings today) w
        (λ lock e. unlocked-Free lock w e free) (λ error e. obeyed.not_locked w free (λ h. cc))
