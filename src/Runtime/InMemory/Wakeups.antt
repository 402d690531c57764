-- ===== src/Runtime/InMemory/Wakeups.antt =====
-- crates/runtime/src/in_memory.rs: the subscribers of one endpoint's queue, and the Tokio `Notify`
-- that `push` and `pop` share. What Tokio documents of it is a record of laws.
pub mod Awake
pub mod Stall
use sisa_messaging_rs.Prelude.{ℕ, suc, ◌≡◌, Bool, true, false, Option, none, some}
use sisa_messaging_rs.Runtime.InMemory.{Pending, Queue, push, pop}

-- `notify_one`, and the first poll of `notified()`; whether a permit is stored, and how many tasks
-- wait.
pub record Notify (N : Type 0) : Type 0 where
  pub notify_one : N → N
  pub notified : N → N
  pub permit : N → Bool
  pub waiting : N → ℕ

-- `notify_one` wakes a waiting task or else stores the one permit; `notified` takes the permit and is
-- done, or else waits.
pub record NotifyLaws {N : Type 0} (notify : Notify N) : Type 0 where
  pub stores :
      (n : N)
      → notify.waiting n ≡ 0
      → (notify.permit (notify.notify_one n) ≡ true) × (notify.waiting (notify.notify_one n) ≡ 0)
  pub wakes :
      (n : N) (k : ℕ)
      → notify.waiting n ≡ suc k
      → (notify.permit (notify.notify_one n) ≡ notify.permit n)
        × (notify.waiting (notify.notify_one n) ≡ k)
  pub takes :
      (n : N)
      → notify.permit n ≡ true
      → (notify.permit (notify.notified n) ≡ false)
        × (notify.waiting (notify.notified n) ≡ notify.waiting n)
  pub waits :
      (n : N)
      → notify.permit n ≡ false
      → (notify.permit (notify.notified n) ≡ false)
        × (notify.waiting (notify.notified n) ≡ suc (notify.waiting n))

-- A queue, and its subscribers by where they are: outside `pop`, at the start of its loop, and
-- between finding the queue empty and polling `notified()`; those that wait are counted by `ready`.
-- `appended` counts the pushes between the queue's lock and `notify_one`.
pub record Subscribers (N : Type 0) : Type 0 where
  pub queue : Queue
  pub ready : N
  pub outside : ℕ
  pub looping : ℕ
  pub checked : ℕ
  pub appended : ℕ

module _ {N : Type 0} (notify : Notify N) where
  -- One step of `push`, `pop`, or a subscriber that goes away.
  pub data Step : Subscribers N → Subscribers N → Type 0 where
    appends :
        {s : Subscribers N} (p : Pending)
        → Step s (record s { queue = push p s.queue; appended = suc s.appended })
    notifies :
        {s : Subscribers N} {m : ℕ}
        → s.appended ≡ suc m
        → notify.waiting s.ready ≡ 0
        → Step s (record s { ready = notify.notify_one s.ready; appended = m })
    notifies_and_wakes :
        {s : Subscribers N} {m k : ℕ}
        → s.appended ≡ suc m
        → notify.waiting s.ready ≡ suc k
        → Step s
            (record s { ready = notify.notify_one s.ready; appended = m; looping = suc s.looping })
    calls :
        {s : Subscribers N} {i : ℕ}
        → s.outside ≡ suc i
        → Step s (record s { outside = i; looping = suc s.looping })
    pops :
        {s : Subscribers N} {a : ℕ} {p : Pending} {q : Queue}
        → s.looping ≡ suc a
        → pop s.queue ≡ some (p, q)
        → Step s (record s { queue = q; looping = a; outside = suc s.outside })
    finds_empty :
        {s : Subscribers N} {a : ℕ}
        → s.looping ≡ suc a
        → pop s.queue ≡ none
        → Step s (record s { looping = a; checked = suc s.checked })
    passes :
        {s : Subscribers N} {c : ℕ}
        → s.checked ≡ suc c
        → notify.permit s.ready ≡ true
        → Step s
            (record s { ready = notify.notified s.ready; checked = c; looping = suc s.looping })
    waits :
        {s : Subscribers N} {c : ℕ}
        → s.checked ≡ suc c
        → notify.permit s.ready ≡ false
        → Step s (record s { ready = notify.notified s.ready; checked = c })
    leaves : {s : Subscribers N} {i : ℕ} → s.outside ≡ suc i → Step s (record s { outside = i })

  pub data Steps : Subscribers N → Subscribers N → Type 0 where
    done : {s : Subscribers N} → Steps s s
    step : {s t u : Subscribers N} → Step s t → Steps t u → Steps s u
