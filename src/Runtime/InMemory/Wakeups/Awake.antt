-- ===== src/Runtime/InMemory/Wakeups/Awake.antt =====
-- crates/runtime/src/in_memory.rs: whether a copy in the queue reaches a subscriber that waits.
use sisa_messaging_rs.Prelude.{
  ◌+◌, ◌≤◌, ◌<◌, ◌≡◌, refl, ◌⊎◌, inl, inr, true, false, List, [], ◌∷◌, none, arith,
}
use sisa_messaging_rs.Prelude.Lists.{length}
use sisa_messaging_rs.Runtime.InMemory.{Pending, Queue, pop}
use sisa_messaging_rs.Runtime.InMemory.Wakeups.{
  Notify, NotifyLaws, Subscribers, Step, appends, notifies, notifies_and_wakes, calls, pops,
  finds_empty, passes, waits, leaves, Steps, done, step,
}

empty_or :
    (ps : List Pending) → (length ps ≡ 0) ⊎ ((p : Pending) × (qs : List Pending) × (ps ≡ p ∷ qs))
empty_or [] = inl refl
empty_or (p ∷ ps) = inr (p, ps, refl)

pop-none : (q : Queue) → pop q ≡ none → length q.pending ≡ 0
unfolding pop
pop-none q h = elim (empty_or q.pending) [ inl e ↦ e | inr (p, ps, e) ↦ absurd (cc (h, e)) ]

-- One subscriber at most. Unless a push has still to call `notify_one`, it waits only while the queue
-- is empty, and if it is about to wait with a copy in the queue, then there is a permit to take.
pub record IsAwake {N : Type 0} (notify : Notify N) (s : Subscribers N) : Type 0 where
  pub one : s.outside + s.looping + s.checked + notify.waiting s.ready ≤ 1
  pub waits_empty : 0 < notify.waiting s.ready → s.appended ≡ 0 → length s.queue.pending ≡ 0
  pub has_permit :
      0 < s.checked → s.appended ≡ 0 → 0 < length s.queue.pending → notify.permit s.ready ≡ true

module _ {N : Type 0} (notify : Notify N) (laws : NotifyLaws notify) where
  unnoticed :
      (s : Subscribers N)
      → notify.permit s.ready ≡ false
      → 0 < s.checked
      → s.appended ≡ 0
      → IsAwake notify s
      → length s.queue.pending ≡ 0
  unnoticed s f c z a = elim (empty_or s.queue.pending) [
    | inl e ↦ e
    | inr (p, ps, e) ↦ absurd (cc (a.has_permit c z (rw e (omega arith)), f))
  ]

  Step-IsAwake : {s t : Subscribers N} → Step notify s t → IsAwake notify s → IsAwake notify t
  Step-IsAwake {s = s} (appends p) a = record {
    one = a.one;
    waits_empty = λ _ z. absurd (omega (arith, z));
    has_permit = λ _ z _. absurd (omega (arith, z));
  }
  Step-IsAwake {s = s} (notifies m w) a =
      let (stored, none_waits) = laws.stores s.ready w in
      record {
        one = omega (arith, a.one, none_waits, w);
        waits_empty = λ h _. absurd (omega (arith, none_waits, h));
        has_permit = λ _ _ _. stored;
      }
  Step-IsAwake {s = s} (notifies_and_wakes {k = k} m w) a =
      let (kept, left) = laws.wakes s.ready k w in
      record {
        one = omega (arith, a.one, left, w);
        waits_empty = λ h _. absurd (omega (arith, a.one, left, w, h));
        has_permit = λ h _ _. absurd (omega (arith, a.one, w, h));
      }
  Step-IsAwake {s = s} (calls e) a = record {
    one = omega (arith, a.one, e);
    waits_empty = a.waits_empty;
    has_permit = a.has_permit;
  }
  Step-IsAwake {s = s} (pops e f) a = record {
    one = omega (arith, a.one, e);
    waits_empty = λ h _. absurd (omega (arith, a.one, e, h));
    has_permit = λ h _ _. absurd (omega (arith, a.one, e, h));
  }
  Step-IsAwake {s = s} (finds_empty e f) a = record {
    one = omega (arith, a.one, e);
    waits_empty = λ h _. absurd (omega (arith, a.one, e, h));
    has_permit = λ _ _ h. absurd (omega (arith, pop-none s.queue f, h));
  }
  Step-IsAwake {s = s} (passes e f) a =
      let (_, same) = laws.takes s.ready f in
      record {
        one = omega (arith, a.one, e, same);
        waits_empty = λ h _. absurd (omega (arith, a.one, e, same, h));
        has_permit = λ h _ _. absurd (omega (arith, a.one, e, h));
      }
  Step-IsAwake {s = s} (waits e f) a =
      let (_, more) = laws.waits s.ready f in
      record {
        one = omega (arith, a.one, e, more);
        waits_empty = λ _ z. unnoticed s f (omega (arith, e)) z a;
        has_permit = λ h _ _. absurd (omega (arith, a.one, e, h));
      }
  Step-IsAwake {s = s} (leaves e) a = record {
    one = omega (arith, a.one, e);
    waits_empty = a.waits_empty;
    has_permit = a.has_permit;
  }

  -- From a state as `IsAwake` says, such as one subscriber of an empty queue, every state that the
  -- steps reach is one: no order of the subscriber's steps and the pushes' leaves it waiting while
  -- there is a copy in the queue, once the pushes have called `notify_one`.
  pub Steps-IsAwake : {s t : Subscribers N} → Steps notify s t → IsAwake notify s → IsAwake notify t
  Steps-IsAwake done a = a
  Steps-IsAwake (step m ms) a = Steps-IsAwake ms (Step-IsAwake m a)
