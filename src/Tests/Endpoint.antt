-- ===== src/Tests/Endpoint.antt =====
-- A delivery whose handler fails on the last attempt, and a run of the maintenance worker.
use sisa_messaging_rs.Prelude.{
  ℕ, ◌≡◌, refl, ap, Bool, true, false, List, [], ◌∷◌, none, some, Result, ok, err, subst,
  if◌then◌else◌,
}
use sisa_messaging_rs.Prelude.Lists.{All}
use sisa_messaging_rs.Prelude.Text.{Text, codes}
use sisa_messaging_rs.Prelude.Int.{pos}
use sisa_messaging_rs.Core.Time.Date.{Date}
use sisa_messaging_rs.Core.Envelope.Source.{Source}
use sisa_messaging_rs.Core.Store.{StoreError}
use sisa_messaging_rs.Core.Transport.{Sent}
use sisa_messaging_rs.Core.Partition.{PartitionInfo, PartitionStore}
use sisa_messaging_rs.Runtime.Retry
use sisa_messaging_rs.Runtime.Handler.{HandlerError}
use sisa_messaging_rs.Runtime.Endpoint.{returned, failed_handler}
use sisa_messaging_rs.Runtime.Endpoint.Settle.{process}
use sisa_messaging_rs.Runtime.Endpoint.Process.{
  Environment, transport, errors, delivery, endpoint, Settles,
}
use sisa_messaging_rs.Runtime.Endpoint.Process.Settling.{process-Settles}
use sisa_messaging_rs.Runtime.Maintenance
use sisa_messaging_rs.Runtime.Maintenance.{PartitionSettings, maintain}
use sisa_messaging_rs.Runtime.Maintenance.Locked.{Obeyed}
use sisa_messaging_rs.Runtime.Maintenance.Run.{run, run-Free}
use sisa_messaging_rs.Tests.Sample.{order, conversions}

abbrev failure : HandlerError
failure = record { error_type = codes "stock"; message = codes "none left" }

abbrev pub env : Environment
env = record {
  pipeline = λ h c. err (failed_handler failure);
  answer = λ h e. ok tt;
  error_answer = λ h n e. ok tt;
  settled = λ h. ok tt;
}

abbrev pub shop : Source
shop = record { value = codes "shop" }

process-Settles_example :
    (s : Sent) × ((process
        (transport env)
        (errors env)
        conversions
        (endpoint env (codes "billing") Retry.default)
        shop
        (delivery env (order 7) 5)
        []).0
      ≡ returned s)
    × Settles conversions
        (codes "billing")
        Retry.default
        (order 7)
        5
        []
        (process
          (transport env)
          (errors env)
          conversions
          (endpoint env (codes "billing") Retry.default)
          shop
          (delivery env (order 7) 5)
          []).1
process-Settles_example =
    process-Settles env conversions (codes "billing") Retry.default (order 7) 5 [] shop

-- A store that counts: whether the lock is held, and the partitions that were expired.
abbrev Store : Type 0
Store = Bool × List PartitionInfo

abbrev partition : Text → ℕ → PartitionInfo
partition name pending = record {
  name = name;
  from = record { days = pos 0 };
  to = record { days = pos 1 };
  pending = pending;
  failed = 0;
}

abbrev listed : List PartitionInfo
listed = partition (codes "old") 0 ∷ (partition (codes "unsent") 3 ∷ [])

abbrev store : PartitionStore Store
store = record {
  try_lock = λ w. (ok (if w.0 then none else some tt), (true, w.1));
  unlock = λ w. (tt, (false, w.1));
  ensure_partitions = λ interval from count w. (ok tt, w);
  default_rows = λ w. (ok 0, w);
  expirable = λ date w. (ok listed, w);
  expire = λ p mode w. (ok tt, (w.0, p ∷ w.1));
}

abbrev settings : PartitionSettings
settings = record Maintenance.default { retention_days = some 90 }

abbrev today : Date
today = record { days = pos 20_000 }

-- Unlocked, and nothing with unsent rows was expired.
abbrev AllSent : List PartitionInfo → Type 0
AllSent ps = All (λ p. p.pending ≡ 0) ps

abbrev Free : Store → Type 0
Free w = (w.0 ≡ false) × AllSent w.1

abbrev Held : Store → Type 0
Held w = (w.0 ≡ true) × AllSent w.1

abbrev IsListed : PartitionInfo → Type 0
IsListed p = p.from ≡ record { days = pos 0 }

abbrev AllListed : Result StoreError (List PartitionInfo) → Type 0
AllListed (ok ps) = All IsListed ps
AllListed (err e) = Unit

obeyed : (day : Date) → Obeyed store settings day Free Held IsListed
obeyed day = record {
  not_locked = λ (held, ps) (free, sent) e.
      absurd (e (ap (λ (b : Bool). ok (if b then none else some tt)) free));
  locked = λ w (free, sent) e. (refl, sent);
  dropped = λ w (held, sent). (refl, sent);
  ensured = λ w held. held;
  counted = λ w held. held;
  listed_held = λ w days e held. held;
  listed = λ w days ps e answered. subst AllListed answered (refl, (refl, tt));
  expired = λ w p (held, sent) mine pending failed. (held, (pending, sent));
}

test_expired :
    (maintain store settings today (false, [])).1 ≡ (false, partition (codes "old") 0 ∷ [])
unfolding maintain Maintenance.expire_all
test_expired = refl

-- A clock that stands, and waits that no stop signal ends.
run-Free_example : Free (run store settings (λ w. (today, w)) (λ d w. (false, w)) 3 (false, [])).1
run-Free_example =
    run-Free store settings (λ w. (today, w)) (λ d w. (false, w)) Free Held IsListed obeyed
      (λ w free. free) (λ w free. free) 3 (false, []) (refl, tt)
