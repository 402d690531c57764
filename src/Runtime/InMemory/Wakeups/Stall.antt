-- ===== src/Runtime/InMemory/Wakeups/Stall.antt =====
-- crates/runtime/src/in_memory.rs: two subscribers and two appends, notifies, of which one permit is left.
use sisa_messaging_rs.Prelude.{◌≡◌, refl, arith, false, [], ◌∷◌}
use sisa_messaging_rs.Runtime.InMemory.{Pending, empty, push, pop}
use sisa_messaging_rs.Runtime.InMemory.Wakeups.{
  Notify, NotifyLaws, Subscribers, appends, notifies, pops, finds_empty, passes, waits, leaves,
  Steps, done, step,
}

-- Two subscribers at the start of the loop, with an empty queue.
abbrev pub two : {N : Type 0} → N → Subscribers N
two n = record { queue = empty; ready = n; outside = 0; looping = 2; checked = 0; appended = 0 }

-- The copy is in the queue, and the only subscriber waits with no permit to wake it.
pub record IsStalled {N : Type 0} (notify : Notify N) (copy : Pending) (s : Subscribers N)
    : Type 0 where
  pub queued : s.queue.pending ≡ copy ∷ []
  pub nobody_awake : (s.outside ≡ 0) × (s.looping ≡ 0) × (s.checked ≡ 0) × (s.appended ≡ 0)
  pub blocked : notify.waiting s.ready ≡ 1
  pub no_permit : notify.permit s.ready ≡ false

module _ {N : Type 0} (notify : Notify N) (laws : NotifyLaws notify) where
  -- When two subscribers are at the start of the loop over an empty queue, and none waits, then for any
  -- two copies there are steps that push both, hand out the first one, and end with one subscriber
  -- gone and the other waiting, with no permit to wake it, while the second copy is in the queue.
  pub two-IsStalled :
      (n : N) (first second : Pending)
      → notify.waiting n ≡ 0
      → (s : Subscribers N) × Steps notify (two n) s × IsStalled notify second s
  unfolding push pop
  two-IsStalled n first second w =
      let n₁ = notify.notify_one n in
      let n₂ = notify.notify_one n₁ in
      let n₃ = notify.notified n₂ in
      let stored₁ = laws.stores n w in
      let stored₂ = laws.stores n₁ stored₁.1 in
      let taken = laws.takes n₂ stored₂.0 in
      let blocks = laws.waits n₃ taken.0 in
      (
        _,
        step (finds_empty refl refl) (
            step (finds_empty refl refl) (
              step (appends first) (
                step (notifies refl w) (
                  step (appends second) (
                    step (notifies refl stored₁.1) (
                      step (passes refl stored₂.0) (
                        step (pops refl refl)
                          (step (leaves refl) (step (waits refl taken.0) done))))))))),
        record {
          queued = refl;
          nobody_awake = (refl, refl, refl, refl);
          blocked = omega (arith, blocks.1, taken.1, stored₂.1);
          no_permit = blocks.0;
        },
      )
