-- ===== src/Runtime/InMemory.antt =====
-- crates/runtime/src/in_memory.rs: the transport inside the process. An endpoint's queue, which the
-- code shares between its subscribers, is a value under the endpoint's name; each operation that holds
-- the lock is one step. A subscriber that finds its queue empty waits, so `pop` answers `none`.
pub mod Copies
pub mod Wakeups
use sisa_messaging_rs.Prelude.{
  ℕ, ◌+◌, ◌%◌, ◌^◌, Bool, true, false, List, [], ◌∷◌, ◌++◌, Option, none, some, Result, ok, err,
  map, if◌then◌else◌,
}
use sisa_messaging_rs.Prelude.Lists.{any_of}
use sisa_messaging_rs.Prelude.Text.{Text, codes, text_eq}
use sisa_messaging_rs.Prelude.Maps
use sisa_messaging_rs.Prelude.Maps.{Map}
use sisa_messaging_rs.Core.MessageType.{MessageType}
use sisa_messaging_rs.Core.MessageId.{MessageId}
use sisa_messaging_rs.Core.Envelope.Defs.{Envelope}
use sisa_messaging_rs.Core.Transport.{TransportError, broker, EndpointSpec, Sent}

-- A copy of a message waiting for one of the endpoint's subscribers.
pub record Pending : Type 0 where
  pub envelope : Envelope
  pub attempt : ℕ  -- u32

pub record Queue : Type 0 where
  pub pending : List Pending
  pub rejected : List MessageId

abbrev pub empty : Queue
empty = record { pending = []; rejected = [] }

unfoldable pub push : Pending → Queue → Queue
push p q = record q { pending = q.pending ++ (p ∷ []) }

unfoldable pub pop : Queue → Option (Pending × Queue)
pop q = elim q.pending [ [] ↦ none | p ∷ ps ↦ some (p, record q { pending = ps }) ]

-- The queue of each endpoint, empty before its first subscription.
abbrev pub Queues : Type 0
Queues = Text → Queue

abbrev pub set : Text → Queue → Queues → Queues
set name q queues n = if text_eq name n then q else queues n

-- The message types of each endpoint, where a type that is there twice counts once.
pub record State : Type 0 where
  pub endpoints : Map (List MessageType)
  pub queues : Queues
  pub published : List Envelope
  pub errors : Map (List Envelope)
  pub failing : Bool

pub record InMemoryDelivery : Type 0 where
  pub envelope : Envelope
  pub attempt : ℕ
  pub endpoint : Text  -- whose queue the delivery holds
  pub settled : Bool

-- The attempt number wraps around, as in a release build.
unfoldable pub next_attempt : InMemoryDelivery → Pending
next_attempt d = record { envelope = d.envelope; attempt = (d.attempt + 1) % 2 ^ 32 }

unfoldable pub ack : InMemoryDelivery → Sent × InMemoryDelivery
ack d = (ok tt, record d { settled = true })

-- The task that `retry` spawns: it sleeps, and pushes the copy to the endpoint's queue.
abbrev pub Sleeper : Type 0
Sleeper = Text × Pending

unfoldable pub retry : InMemoryDelivery → Sent × InMemoryDelivery × Sleeper
unfolding next_attempt
retry d = (ok tt, record d { settled = true }, (d.endpoint, next_attempt d))

unfoldable pub wake : Sleeper → State → State
unfolding push
wake (name, p) s = record s { queues = set name (push p (s.queues name)) s.queues }

unfoldable pub reject : InMemoryDelivery → State → Sent × InMemoryDelivery × State
reject d s =
    let q = s.queues d.endpoint in
    (
      ok tt,
      record d { settled = true },
      record s {
        queues =
            set d.endpoint (record q { rejected = q.rejected ++ (d.envelope.id ∷ []) }) s.queues;
      },
    )

-- `Drop`, which also follows each of the three above.
unfoldable pub drop : InMemoryDelivery → State → State
unfolding push next_attempt
drop d s =
    if d.settled
    then s
    else record s { queues = set d.endpoint (push (next_attempt d) (s.queues d.endpoint)) s.queues }

abbrev pub new : State
new = record { endpoints = []; queues = λ n. empty; published = []; errors = []; failing = false }

abbrev or_empty : {A : Type 0} → Option (List A) → List A
or_empty none = []
or_empty (some xs) = xs

unfoldable pub published : State → List Envelope
published s = s.published

unfoldable pub rejected : Text → State → List MessageId
rejected name s = elim (Maps.get name s.endpoints) [
  | none ↦ []
  | some types ↦ (s.queues name).rejected
]

unfoldable pub errors : Text → State → List Envelope
errors name s = or_empty (Maps.get name s.errors)

unfoldable pub fail_publishes : Bool → State → State
fail_publishes failing s = record s { failing = failing }

abbrev pub unreachable_broker : TransportError
unreachable_broker = broker "publishing in memory" (codes "publishes are set to fail")

abbrev pub contains : List MessageType → MessageType → Bool
contains types t = any_of (λ u. text_eq u.value t.value) types

-- The loop over the endpoints.
unfoldable pub push_copies : Map (List MessageType) → Envelope → Queues → Queues
unfolding push
push_copies [] e queues = queues
push_copies ((name, types) ∷ endpoints) e queues = push_copies endpoints e (
    if contains types e.message_type
    then set name (push (record { envelope = e; attempt = 1 }) (queues name)) queues
    else queues)

unfoldable pub publish : Envelope → State → Sent × State
unfolding push_copies
publish e s = if s.failing then (err unreachable_broker, s) else (
  ok tt,
  record s { published = s.published ++ (e ∷ []); queues = push_copies s.endpoints e s.queues },
)

-- The subscription; its stream of deliveries is `receive`.
unfoldable pub subscribe : EndpointSpec → State → State
subscribe spec s = record s {
  endpoints =
      Maps.insert spec.name (or_empty (Maps.get spec.name s.endpoints) ++ spec.message_types)
        s.endpoints;
}

abbrev taken : Text → State → Option (Pending × Queue) → Option (InMemoryDelivery × State)
taken name s none = none
taken name s (some (p, q)) = some (
  record { envelope = p.envelope; attempt = p.attempt; endpoint = name; settled = false },
  record s { queues = set name q s.queues },
)

unfoldable pub receive : Text → State → Option (InMemoryDelivery × State)
unfolding pop
receive name s = taken name s (pop (s.queues name))

unfoldable pub publish_error : Text → Envelope → State → Sent × State
publish_error name e s = if s.failing then (err unreachable_broker, s) else (
  ok tt,
  record s { errors = Maps.insert name (or_empty (Maps.get name s.errors) ++ (e ∷ [])) s.errors },
)
