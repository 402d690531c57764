-- ===== src/Runtime/InMemory/Copies.antt =====
-- crates/runtime/src/in_memory.rs: where each copy of a message is. A system is the transport, the
-- deliveries that subscribers hold, and the sleeping tasks of `retry`.
pub mod Conserved
use sisa_messaging_rs.Prelude.{
  ℕ, suc, ◌+◌, ◌≡◌, refl, ◌∙◌, sym, subst, ap, Bool, true, false, List, [], ◌∷◌, ◌++◌, ◌&&◌, Option,
  none, some, Result, ok, err, arith, Bool-cases, Option-cases, inl, inr, if◌then◌else◌,
}
use sisa_messaging_rs.Prelude.Lists.{any_of, length, length-append}
use sisa_messaging_rs.Prelude.Text.{Text, text_eq, text_eq_iff}
use sisa_messaging_rs.Prelude.Maps
use sisa_messaging_rs.Prelude.Maps.{Map, Above, IsSorted}
use sisa_messaging_rs.Prelude.Maps.Laws.{insert-IsSorted, get-Above, text_eq_refl}
use sisa_messaging_rs.Core.MessageType.{MessageType}
use sisa_messaging_rs.Core.Envelope.Defs.{Envelope}
use sisa_messaging_rs.Core.Transport.{EndpointSpec}
use sisa_messaging_rs.Runtime.InMemory.{
  Pending, Queue, Queues, State, InMemoryDelivery, Sleeper, set, push, pop, next_attempt, ack,
  retry, wake, reject, drop, fail_publishes, contains, push_copies, publish, subscribe, receive,
  publish_error,
}

pub record System : Type 0 where
  pub state : State
  pub held : List InMemoryDelivery
  pub asleep : List Sleeper

-- Whether the endpoint gets a copy of a message of this type.
abbrev pub found_in : Option (List MessageType) → MessageType → Bool
found_in none t = false
found_in (some types) t = contains types t

abbrev pub takes : Text → MessageType → State → Bool
takes name t s = found_in (Maps.get name s.endpoints) t

abbrev pub count : {A : Type 0} → (A → Bool) → List A → ℕ
count p [] = 0
count p (x ∷ xs) = (if p x then 1 else 0) + count p xs

-- A test of messages, by which copies are told apart.
abbrev pub Test : Type 0
Test = Envelope → Bool

-- The copies of an endpoint that are not settled for good: waiting, held, or asleep; those of the
-- messages that pass a test.
abbrev pub in_flight : Test → Text → System → ℕ
in_flight test name s =
    count (λ x. test x.envelope) (s.state.queues name).pending
    + (count (λ d. text_eq d.endpoint name && test d.envelope) s.held
        + count (λ x. text_eq x.0 name && test x.1.envelope) s.asleep)

abbrev pub number : Bool → ℕ
number b = if b then 1 else 0

-- The copies that a step makes for an endpoint, and those that it settles for good; those of the
-- messages that pass a test.
pub record Change : Type 0 where
  pub made : Test → Text → ℕ
  pub done : Test → Text → ℕ

abbrev pub quiet : Change
quiet = record { made = λ p n. 0; done = λ p n. 0 }

abbrev pub settles : InMemoryDelivery → Change
settles d = record { made = λ p n. 0; done = λ p n. number (text_eq d.endpoint n && p d.envelope) }

pub data Step : System → Change → System → Type 0 where
  publishes :
      (s : System) (e : Envelope)
      → Step s
          (record {
            made = λ p n.
                if s.state.failing then 0 else number (takes n e.message_type s.state && p e);
            done = λ p n. 0;
          })
          (record s { state = (publish e s.state).1 })
  publishes_error :
      (s : System) (name : Text) (e : Envelope)
      → Step s quiet (record s { state = (publish_error name e s.state).1 })
  subscribes :
      (s : System) (spec : EndpointSpec)
      → Step s quiet (record s { state = subscribe spec s.state })
  fails :
      (s : System) (failing : Bool)
      → Step s quiet (record s { state = fail_publishes failing s.state })
  receives :
      (s : System) (name : Text) (d : InMemoryDelivery) (state : State)
      → receive name s.state ≡ some (d, state)
      → Step s quiet (record s { state = state; held = d ∷ s.held })
  acks :
      (s : System) (pre post : List InMemoryDelivery) (d : InMemoryDelivery)
      → s.held ≡ pre ++ (d ∷ post)
      → Step s (settles d) (record s { state = drop (ack d).1 s.state; held = pre ++ post })
  retries :
      (s : System) (pre post : List InMemoryDelivery) (d : InMemoryDelivery)
      → s.held ≡ pre ++ (d ∷ post)
      → Step s quiet (record s {
        state = drop (retry d).1 s.state;
        held = pre ++ post;
        asleep = (retry d).2 ∷ s.asleep;
      })
  rejects :
      (s : System) (pre post : List InMemoryDelivery) (d : InMemoryDelivery)
      → s.held ≡ pre ++ (d ∷ post)
      → Step s
          (settles d)
          (record s { state = drop (reject d s.state).1 (reject d s.state).2; held = pre ++ post })
  drops :
      (s : System) (pre post : List InMemoryDelivery) (d : InMemoryDelivery)
      → s.held ≡ pre ++ (d ∷ post)
      → d.settled ≡ false
      → Step s quiet (record s { state = drop d s.state; held = pre ++ post })
  wakes :
      (s : System) (pre post : List Sleeper) (x : Sleeper)
      → s.asleep ≡ pre ++ (x ∷ post)
      → Step s quiet (record s { state = wake x s.state; asleep = pre ++ post })

-- Any number of steps, with all the copies that they make and settle.
pub data Steps : System → Change → System → Type 0 where
  start : (s : System) → Steps s quiet s
  later :
      (s t u : System) (c d : Change)
      → Steps s c t
      → Step t d u
      → Steps s
          (record { made = λ p n. c.made p n + d.made p n; done = λ p n. c.done p n + d.done p n })
          u
