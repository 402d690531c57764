-- ===== src/Runtime/InMemory/Copies/Conserved.antt =====
-- crates/runtime/src/in_memory.rs: no copy of a message is lost or doubled.
use sisa_messaging_rs.Prelude.{
  ℕ, ◌+◌, ◌≡◌, refl, ◌∙◌, subst, ap, Bool, true, false, List, [], ◌∷◌, ◌++◌, ◌&&◌, Option, none,
  some, arith, Bool-cases, inl, inr, if◌then◌else◌,
}
use sisa_messaging_rs.Prelude.Text.{Text, text_eq, text_eq_iff}
use sisa_messaging_rs.Prelude.Maps
use sisa_messaging_rs.Prelude.Maps.{Map, Above, IsSorted}
use sisa_messaging_rs.Prelude.Maps.Laws.{insert-IsSorted, get-Above}
use sisa_messaging_rs.Core.MessageType.{MessageType}
use sisa_messaging_rs.Core.Envelope.Defs.{Envelope}
use sisa_messaging_rs.Runtime.InMemory.{
  Pending, Queue, Queues, State, InMemoryDelivery, set, push, pop, next_attempt, ack, retry, wake,
  reject, drop, fail_publishes, contains, push_copies, publish, subscribe, receive, taken,
  publish_error,
}
use sisa_messaging_rs.Runtime.InMemory.Copies.{
  System, Test, found_in, count, in_flight, number, Change, quiet, Step, publishes, publishes_error,
  subscribes, fails, receives, acks, retries, rejects, drops, wakes, Steps, start, later,
}

-- A queue's copies of the messages that pass a test.
abbrev waiting : Test → Text → Queues → ℕ
waiting p n queues = count (λ x. p x.envelope) (queues n).pending

count-middle :
    {A : Type 0} (p : A → Bool) (pre post : List A) (x : A)
    → count p (pre ++ (x ∷ post)) ≡ count p (pre ++ post) + number (p x)
count-middle p [] post x = omega arith
count-middle p (y ∷ pre) post x = omega (arith, count-middle p pre post x)

count-out :
    {A : Type 0} (p : A → Bool) (pre post : List A) (x : A) (xs : List A)
    → xs ≡ pre ++ (x ∷ post)
    → count p xs ≡ count p (pre ++ post) + number (p x)
count-out p pre post x xs h = rw h (count-middle p pre post x)

count-last :
    {A : Type 0} (p : A → Bool) (xs : List A) (x : A)
    → count p (xs ++ (x ∷ [])) ≡ count p xs + number (p x)
count-last p [] x = omega arith
count-last p (y ∷ xs) x = omega (arith, count-last p xs x)

-- The copy that is pushed waits in the queue that it is pushed to, and nothing else changes.
waiting-push :
    (test : Test) (n name : Text) (p : Pending) (queues : Queues)
    → waiting test n (set name (push p (queues name)) queues)
      ≡ waiting test n queues + number (text_eq name n && test p.envelope)
unfolding push
waiting-push test n name p queues = elim (Bool-cases (text_eq name n)) [
  | inl e ↦
      let same : name ≡ n = (text_eq_iff name n).0 e in
      rw e (
        count-last (λ (x : Pending). test x.envelope) (queues name).pending p
        ∙ ap (λ m. waiting test m queues + number (test p.envelope)) same)
  | inr e ↦ rw e (omega arith)
]

abbrev found : Text → MessageType → Map (List MessageType) → Bool
found n t m = found_in (Maps.get n m) t

found_in-if :
    (b : Bool) (types : List MessageType) (o : Option (List MessageType)) (t : MessageType)
    → found_in (if b then some types else o) t ≡ (if b then contains types t else found_in o t)
found_in-if true types o t = refl
found_in-if false types o t = refl

found-cons :
    (n name : Text) (t : MessageType) (types : List MessageType) (m : Map (List MessageType))
    → found n t ((name, types) ∷ m) ≡ (if text_eq name n then contains types t else found n t m)
unfolding Maps.get
found-cons n name t types m = found_in-if (text_eq name n) types (Maps.get n m) t

found-Above :
    (n name : Text) (t : MessageType) (m : Map (List MessageType))
    → text_eq name n ≡ true
    → Above name m
    → found n t m ≡ false
found-Above n name t m h a =
    ap (λ o. found_in o t) (get-Above n m (subst (λ k. Above k m) ((text_eq_iff name n).0 h) a))

-- The push of one endpoint's copy, if it takes the message.
waiting-push_if :
    (test : Test) (b : Bool) (n name : Text) (p : Pending) (queues : Queues)
    → waiting test n (if b then set name (push p (queues name)) queues else queues)
      ≡ waiting test n queues + (if b then number (text_eq name n && test p.envelope) else 0)
waiting-push_if test true n name p queues = waiting-push test n name p queues
waiting-push_if test false n name p queues = omega arith

nothing : (n : Text) (t : MessageType) (b : Bool) (k : ℕ) → k ≡ k + number (found n t [] && b)
unfolding Maps.get
nothing n t b k = omega arith

waiting-push_copies :
    (test : Test) (n : Text) (m : Map (List MessageType)) (e : Envelope) (queues : Queues)
    → IsSorted m
    → waiting test n (push_copies m e queues)
      ≡ waiting test n queues + number (found n e.message_type m && test e)
unfolding push_copies
waiting-push_copies test n [] e queues s = nothing n e.message_type (test e) (waiting test n queues)
waiting-push_copies test n ((name, types) ∷ m) e queues s =
    let copy : Pending = record { envelope = e; attempt = 1 } in
    let b = contains types e.message_type in
    let here = waiting-push_if test b n name copy queues in
    let below =
      waiting-push_copies test n m e
        (if b then set name (push copy (queues name)) queues else queues) s.1 in
    below
    ∙ rw (here, found-cons n name e.message_type types m)
        (elim (Bool-cases (text_eq name n)) [
          | inl h ↦
              rw (h, found-Above n name e.message_type m h s.0)
                (elim (Bool-cases b) [ inl c ↦ rw c (omega arith) | inr c ↦ rw c (omega arith) ])
          | inr h ↦
              rw h (elim (Bool-cases b) [ inl c ↦ rw c (omega arith) | inr c ↦ rw c (omega arith) ])
        ])

-- A step's change accounts for every copy.
abbrev Accounts : System → Change → System → Type 0
Accounts s c t =
    IsSorted t.state.endpoints
    × ((p : Test) (n : Text) → in_flight p n t + c.done p n ≡ in_flight p n s + c.made p n)

-- A queue with as many copies waiting as before.
waiting_same :
    (test : Test) (n name : Text) (q : Queue) (queues : Queues)
    → q.pending ≡ (queues name).pending
    → waiting test n (set name q queues) ≡ waiting test n queues
waiting_same test n name q queues h = elim (Bool-cases (text_eq name n)) [
  | inl e ↦ rw e (
      ap (count (λ (x : Pending). test x.envelope)) h
      ∙ ap (λ m. waiting test m queues) ((text_eq_iff name n).0 e))
  | inr e ↦ rw e refl
]

queued : Option (Pending × Queue) → List Pending
queued none = []
queued (some (p, q)) = p ∷ q.pending

-- The copy that is popped is the queue's first.
pop_lem : (q q' : Queue) (p : Pending) → pop q ≡ some (p, q') → q.pending ≡ p ∷ q'.pending
unfolding pop queued
pop_lem q q' p h = by_pending q.pending refl
  where
    by_pending : (ps : List Pending) → q.pending ≡ ps → q.pending ≡ p ∷ q'.pending
    by_pending [] e = absurd (cc (rw (pop, e) at h))
    by_pending (x ∷ ps) e = e ∙ ap queued (rw (pop, e) at h)

waiting-pop :
    (test : Test) (n name : Text) (p : Pending) (q : Queue) (queues : Queues)
    → pop (queues name) ≡ some (p, q)
    → waiting test n (set name q queues) + number (text_eq name n && test p.envelope)
      ≡ waiting test n queues
waiting-pop test n name p q queues h = elim (Bool-cases (text_eq name n)) [
  | inl e ↦
      let first = ap (count (λ (x : Pending). test x.envelope)) (pop_lem (queues name) q p h) in
      let same = ap (λ m. waiting test m queues) ((text_eq_iff name n).0 e) in
      rw e (omega (arith, first, same))
  | inr e ↦ rw e (omega arith)
]

-- A receive that answers takes a copy off the endpoint's queue.
taken_lem :
    (P : InMemoryDelivery → State → Type 0) (name : Text) (s : State) (o : Option (Pending × Queue))
    (d : InMemoryDelivery) (state : State)
    → taken name s o ≡ some (d, state)
    → ((p : Pending) (q : Queue)
        → o ≡ some (p, q)
        → P
            (record {
              envelope = p.envelope;
              attempt = p.attempt;
              endpoint = name;
              settled = false;
            })
            (record s { queues = set name q s.queues }))
    → P d state
taken_lem P name s none d state h k = absurd (cc h)
taken_lem P name s (some (p, q)) d state h k =
    subst (λ (x : InMemoryDelivery × State). P x.0 x.1) (cc h) (k p q refl)

Step-Accounts :
    (s t : System) (c : Change) → IsSorted s.state.endpoints → Step s c t → Accounts s c t
unfolding receive publish publish_error subscribe fail_publishes ack retry reject drop wake
    next_attempt
Step-Accounts s t c sorted (publishes _ e) = elim (Bool-cases s.state.failing) [
  | inl f ↦ rw f (sorted, λ p n. refl)
  | inr f ↦ rw f (
    sorted,
    λ test n. omega (arith, waiting-push_copies test n s.state.endpoints e s.state.queues sorted),
  )
]
Step-Accounts s t c sorted (publishes_error _ name e) = elim (Bool-cases s.state.failing) [
  | inl f ↦ rw f (sorted, λ p n. refl)
  | inr f ↦ rw f (sorted, λ p n. refl)
]
Step-Accounts s t c sorted (subscribes _ spec) =
    (insert-IsSorted spec.name _ s.state.endpoints sorted, λ p n. refl)
Step-Accounts s t c sorted (fails _ failing) = (sorted, λ p n. refl)
Step-Accounts s t c sorted (receives _ name d state h) =
    taken_lem (λ d' state'. Accounts s quiet (record s { state = state'; held = d' ∷ s.held })) name
      s.state (pop (s.state.queues name)) d state h
      (λ p q e. (sorted, λ test n. omega (arith, waiting-pop test n name p q s.state.queues e)))
Step-Accounts s t c sorted (acks _ pre post d h) = (
  sorted,
  λ test n.
      omega (arith, count-out (λ x. text_eq x.endpoint n && test x.envelope) pre post d s.held h),
)
Step-Accounts s t c sorted (retries _ pre post d h) = (
  sorted,
  λ test n.
      omega (arith, count-out (λ x. text_eq x.endpoint n && test x.envelope) pre post d s.held h),
)
Step-Accounts s t c sorted (rejects _ pre post d h) = (
  sorted,
  λ test n. omega (
    arith,
    count-out (λ x. text_eq x.endpoint n && test x.envelope) pre post d s.held h,
    waiting_same test n d.endpoint _ s.state.queues refl,
  ),
)
Step-Accounts s t c sorted (drops _ pre post d h live) = rw live (
  sorted,
  λ test n. omega (
    arith,
    count-out (λ x. text_eq x.endpoint n && test x.envelope) pre post d s.held h,
    waiting-push test n d.endpoint (next_attempt d) s.state.queues,
  ),
)
Step-Accounts s t c sorted (wakes _ pre post x h) = (
  sorted,
  λ test n. omega (
    arith,
    count-out (λ y. text_eq y.0 n && test y.1.envelope) pre post x s.asleep h,
    waiting-push test n x.0 x.1 s.state.queues,
  ),
)

-- Over any steps of publishers, subscribers and sleeping tasks, in any order, each copy of each message
-- is accounted for: for every endpoint and every test of messages, such as one that a single message
-- passes, the endpoint's copies of the messages that pass it and that wait, are held or are asleep are
-- those that were there before and those that the publishes made, one for each publish that did not
-- fail of a message of a type that the endpoint had subscribed to, without those acked or rejected.
pub Steps-Accounts :
    (s t : System) (c : Change)
    → IsSorted s.state.endpoints
    → Steps s c t
    → IsSorted t.state.endpoints
      × ((p : Test) (n : Text) → in_flight p n t + c.done p n ≡ in_flight p n s + c.made p n)
Steps-Accounts s t c sorted (start _) = (sorted, λ p n. refl)
Steps-Accounts s t c sorted (later _ u _ before change steps step) =
    let (sorted', first) = Steps-Accounts s u before sorted steps in
    let (sorted'', last) = Step-Accounts u t change sorted' step in
    (sorted'', λ p n. omega (arith, first p n, last p n))
