-- ===== src/Tests/Wakeups.antt =====
-- Tokio's `Notify` as its permit and how many tasks wait, and an endpoint's subscribers on it.
use sisa_messaging_rs.Prelude.{ℕ, zero, suc, ◌≡◌, refl, arith, Bool, true, false}
use sisa_messaging_rs.Runtime.InMemory.{Pending, empty, push, pop}
use sisa_messaging_rs.Runtime.InMemory.Wakeups.{
  Notify, NotifyLaws, Subscribers, finds_empty, appends, notifies, passes, Steps, done, step,
}
use sisa_messaging_rs.Runtime.InMemory.Wakeups.Awake.{IsAwake, Steps-IsAwake}
use sisa_messaging_rs.Runtime.InMemory.Wakeups.Stall.{two, IsStalled, two-IsStalled}
use sisa_messaging_rs.Tests.Sample.{order}

abbrev Ready : Type 0
Ready = Bool × ℕ

abbrev notify_one : Ready → Ready
notify_one (permit, zero) = (true, zero)
notify_one (permit, suc k) = (permit, k)

abbrev notified : Ready → Ready
notified (true, k) = (false, k)
notified (false, k) = (false, suc k)

abbrev notify : Notify Ready
notify = record {
  notify_one = notify_one;
  notified = notified;
  permit = λ n. n.0;
  waiting = λ n. n.1;
}

stores_one : (n : Ready) → n.1 ≡ 0 → ((notify_one n).0 ≡ true) × ((notify_one n).1 ≡ 0)
stores_one (p, zero) h = (refl, refl)
stores_one (p, suc k) h = absurd (omega arith)

wakes_one : (n : Ready) (k : ℕ) → n.1 ≡ suc k → ((notify_one n).0 ≡ n.0) × ((notify_one n).1 ≡ k)
wakes_one (p, zero) k h = absurd (omega arith)
wakes_one (p, suc j) k h = (refl, omega arith)

takes_one : (n : Ready) → n.0 ≡ true → ((notified n).0 ≡ false) × ((notified n).1 ≡ n.1)
takes_one (true, k) h = (refl, refl)
takes_one (false, k) h = absurd (cc)

waits_one : (n : Ready) → n.0 ≡ false → ((notified n).0 ≡ false) × ((notified n).1 ≡ suc n.1)
waits_one (true, k) h = absurd (cc)
waits_one (false, k) h = (refl, refl)

laws : NotifyLaws notify
laws = record { stores = stores_one; wakes = wakes_one; takes = takes_one; waits = waits_one }

abbrev copy : ℕ → Pending
copy id = record { envelope = order id; attempt = 1 }

abbrev one : Subscribers Ready
one = record {
  queue = empty;
  ready = (false, 0);
  outside = 0;
  looping = 1;
  checked = 0;
  appended = 0;
}

abbrev after_push : Subscribers Ready
after_push = record {
  queue = push (copy 7) empty;
  ready = (false, 0);
  outside = 0;
  looping = 1;
  checked = 0;
  appended = 0;
}

-- The push comes between the empty queue and the wait.
pushed : Steps notify one after_push
unfolding pop
pushed =
    step (finds_empty refl refl)
      (step (appends (copy 7)) (step (notifies refl refl) (step (passes refl refl) done)))

one-IsAwake : IsAwake notify one
one-IsAwake = record {
  one = omega arith;
  waits_empty = λ h z. refl;
  has_permit = λ h z k. absurd (omega arith);
}

Steps-IsAwake_example : IsAwake notify after_push
Steps-IsAwake_example = Steps-IsAwake notify laws pushed one-IsAwake

two-IsStalled_example :
    (s : Subscribers Ready) × Steps notify (two (false, 0)) s × IsStalled notify (copy 8) s
two-IsStalled_example = two-IsStalled notify laws (false, 0) (copy 7) (copy 8) refl
