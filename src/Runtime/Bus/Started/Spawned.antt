-- ===== src/Runtime/Bus/Started/Spawned.antt =====
-- crates/runtime/src/bus.rs: the order in which `start` subscribes and spawns. The world is the list
-- of what happened, newest first, and the transport's answers are any function of it.
use sisa_messaging_rs.Prelude.{
  ◌≡◌, refl, ◌∙◌, ap, subst, List, [], ◌∷◌, ◌++◌, Result, ok, err, map, Result-cases, inl, inr,
}
use sisa_messaging_rs.Prelude.Acts.{pure, >>?-cases}
use sisa_messaging_rs.Prelude.Text.{Text}
use sisa_messaging_rs.Core.Envelope.Source.{Source}
use sisa_messaging_rs.Core.Transport.{TransportError, EndpointSpec}
use sisa_messaging_rs.Runtime.Dispatch.{DispatchSettings}
use sisa_messaging_rs.Runtime.Maintenance.{PartitionSettings}
use sisa_messaging_rs.Runtime.Endpoint.Builder.{BuiltEndpoint}
use sisa_messaging_rs.Runtime.StartError.{StartError, subscribe}
use sisa_messaging_rs.Runtime.Bus.{
  BusBuilder, Worker, receiving, maintaining, dispatching, Bus, Runtime, check, spec_of,
  subscribe_all, workers_of, spawn_all, start,
}

-- What a worker does: an endpoint's deliveries, a table's partitions, or the outbox.
pub data Task : Type 0 where
  receive : Text → Task
  maintain : PartitionSettings → Task
  dispatch : DispatchSettings → Task

pub data Event : Type 0 where
  subscribed : EndpointSpec → Event
  spawned : Task → Event
  stop_sent : Event
  joined : Task → Event

abbrev pub History : Type 0
History = List Event

abbrev pub Subscribed : Type 0 → Type 0
Subscribed D = List (BuiltEndpoint History × D)

abbrev pub endpoints_of : {D : Type 0} → Subscribed D → List (BuiltEndpoint History)
endpoints_of s = map (λ x. x.0) s

module _ {D : Type 0} where
  abbrev pub task_of : Worker History D → Task
  task_of (receiving e source deliveries) = receive e.endpoint.name
  task_of (maintaining m) = maintain m.1
  task_of (dispatching settings) = dispatch settings

  -- The environment with these answers to a subscription.
  abbrev pub runtime : (History → EndpointSpec → Result TransportError D) → Runtime History D
  runtime answer = record {
    subscribe = λ spec h. (answer h spec, subscribed spec ∷ h);
    spawn = λ worker h. (tt, spawned (task_of worker) ∷ h);
    send_stop = λ h. (tt, stop_sent ∷ h);
    join = λ worker h. (tt, joined (task_of worker) ∷ h);
  }

  -- The endpoints were subscribed one after the other, each with success.
  abbrev pub AllSubscribed :
      (History → EndpointSpec → Result TransportError D) → Subscribed D → History → History → Type 0
  AllSubscribed answer [] h h' = h' ≡ h
  AllSubscribed answer ((e, d) ∷ s) h h' =
      (answer h (spec_of e) ≡ ok d) × AllSubscribed answer s (subscribed (spec_of e) ∷ h) h'

  abbrev pub all_spawned : List (Worker History D) → History → History
  all_spawned [] h = h
  all_spawned (worker ∷ workers) h = all_spawned workers (spawned (task_of worker) ∷ h)

  -- How the subscribing ends: with every endpoint, or at the first one that the transport refuses.
  data Subscribes (answer : History → EndpointSpec → Result TransportError D)
      (es : List (BuiltEndpoint History)) (h : History)
      : Result StartError (Subscribed D) × History → Type 0 where
    every :
        (s : Subscribed D) (h' : History)
        → es ≡ endpoints_of s
        → AllSubscribed answer s h h'
        → Subscribes answer es h (ok s, h')
    refused :
        (s : Subscribed D) (e : BuiltEndpoint History) (rest : List (BuiltEndpoint History))
        (x : TransportError) (h' : History)
        → es ≡ endpoints_of s ++ (e ∷ rest)
        → AllSubscribed answer s h h'
        → answer h' (spec_of e) ≡ err x
        → Subscribes answer es h (err (subscribe e.endpoint.name x), subscribed (spec_of e) ∷ h')

  -- How `start` ends. Nothing happens if a check fails; and no worker is spawned unless every endpoint
  -- was subscribed.
  pub data Starts (answer : History → EndpointSpec → Result TransportError D)
      (b : BusBuilder History) (h : History)
      : Result StartError (Bus History D) × History → Type 0 where
    not_checked : (e : StartError) → check b ≡ err e → Starts answer b h (err e, h)
    not_subscribed :
        (source : Source) (s : Subscribed D) (e : BuiltEndpoint History)
        (rest : List (BuiltEndpoint History)) (x : TransportError) (h' : History)
        → check b ≡ ok (source, endpoints_of s ++ (e ∷ rest))
        → AllSubscribed answer s h h'
        → answer h' (spec_of e) ≡ err x
        → Starts answer b h (err (subscribe e.endpoint.name x), subscribed (spec_of e) ∷ h')
    started :
        (source : Source) (s : Subscribed D) (h' : History)
        → check b ≡ ok (source, endpoints_of s)
        → AllSubscribed answer s h h'
        → Starts answer b h (
          ok (record {
            source = source;
            endpoints = map (λ x. x.0.endpoint.name) s;
            workers = workers_of (runtime answer) source s b;
          }),
          all_spawned (workers_of (runtime answer) source s b) h',
        )

  module _ (answer : History → EndpointSpec → Result TransportError D) where
    spawn_all_lem :
        (workers : List (Worker History D)) (h : History)
        → spawn_all (runtime answer) workers h ≡ (tt, all_spawned workers h)
    unfolding spawn_all
    spawn_all_lem [] h = refl
    spawn_all_lem (worker ∷ workers) h = spawn_all_lem workers (spawned (task_of worker) ∷ h)

    with_one :
        (e : BuiltEndpoint History) (d : D) (es : List (BuiltEndpoint History)) (h : History)
        (r : Result StartError (Subscribed D) × History)
        → answer h (spec_of e) ≡ ok d
        → Subscribes answer es (subscribed (spec_of e) ∷ h) r
        → ((s : Subscribed D) → r.0 ≡ ok s → Subscribes answer (e ∷ es) h (ok ((e, d) ∷ s), r.1))
          × ((x : StartError) → r.0 ≡ err x → Subscribes answer (e ∷ es) h (err x, r.1))
    with_one e d es h _ a (every s h' split all) = (
      λ t q.
          subst (λ z. Subscribes answer (e ∷ es) h (ok ((e, d) ∷ z), h')) (cc q)
            (every ((e, d) ∷ s) h' (ap (λ l. e ∷ l) split) (a, all)),
      λ x q. absurd (cc q),
    )
    with_one e d es h _ a (refused s e' rest x h' split all denied) = (
      λ t q. absurd (cc q),
      λ y q.
          subst (λ z. Subscribes answer (e ∷ es) h (err z, subscribed (spec_of e') ∷ h')) (cc q)
            (refused ((e, d) ∷ s) e' rest x h' (ap (λ l. e ∷ l) split) (a, all) denied),
    )

    subscribe_all-Subscribes :
        (es : List (BuiltEndpoint History)) (h : History)
        → Subscribes answer es h (subscribe_all (runtime answer) es h)
    unfolding subscribe_all
    subscribe_all-Subscribes [] h = every [] h refl refl
    subscribe_all-Subscribes (e ∷ es) h = elim (Result-cases (answer h (spec_of e))) [
      | inl (d, a) ↦
          let h' = subscribed (spec_of e) ∷ h in
          let both =
            with_one e d es h (subscribe_all (runtime answer) es h') a
              (subscribe_all-Subscribes es h') in
          rw a (
            >>?-cases (Subscribes answer (e ∷ es) h) (subscribe_all (runtime answer) es)
              (λ s. pure (ok ((e, d) ∷ s))) h' both.0 both.1)
      | inr (x, a) ↦ rw a (refused [] e es x h refl refl a)
    ]

    start_by :
        (b : BusBuilder History) (h : History) (source : Source) (es : List (BuiltEndpoint History))
        (r : Result StartError (Subscribed D) × History)
        → check b ≡ ok (source, es)
        → Subscribes answer es h r
        → ((s : Subscribed D)
            → r.0 ≡ ok s
            → Starts answer b h (
              ok (record {
                source = source;
                endpoints = map (λ x. x.0.endpoint.name) s;
                workers = workers_of (runtime answer) source s b;
              }),
              all_spawned (workers_of (runtime answer) source s b) r.1,
            ))
          × ((x : StartError) → r.0 ≡ err x → Starts answer b h (err x, r.1))
    start_by b h source es _ c (every s h' split all) = (
      λ t q.
          let same : s ≡ t = cc q in
          started source t h' (c ∙ ap (λ l. ok (source, l)) (split ∙ ap endpoints_of same))
            (subst (λ z. AllSubscribed answer z h h') same all),
      λ x q. absurd (cc q),
    )
    start_by b h source es _ c (refused s e rest x h' split all denied) = (
      λ t q. absurd (cc q),
      λ y q.
          subst (λ z. Starts answer b h (err z, subscribed (spec_of e) ∷ h')) (cc q)
            (not_subscribed source s e rest x h' (c ∙ ap (λ l. ok (source, l)) split) all denied),
    )

    -- Starting a bus whose checks fail does nothing. Otherwise the endpoints are subscribed one after the
    -- other, in order, and the first that the transport refuses is the error, with no worker spawned; if
    -- none is refused, one worker is spawned for each endpoint, then one for each table that the bus
    -- keeps, then the dispatcher if there is an outbox.
    pub start-Starts :
        (b : BusBuilder History) (h : History) → Starts answer b h (start (runtime answer) b h)
    unfolding start
    start-Starts b h = elim (Result-cases (check b)) [
      | inl ((source, es), c) ↦
          let both =
            start_by b h source es (subscribe_all (runtime answer) es h) c
              (subscribe_all-Subscribes es h) in
          rw (start, c)
            (>>?-cases (Starts answer b h) (subscribe_all (runtime answer) es) _ h
              (λ s q.
                rw
                  (spawn_all_lem (workers_of (runtime answer) source s b)
                    (subscribe_all (runtime answer) es h).1)
                  (both.0 s q))
              both.1)
      | inr (e, c) ↦ rw (start, c) (not_checked e c)
    ]
