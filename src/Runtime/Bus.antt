-- ===== src/Runtime/Bus.antt =====
-- crates/runtime/src/bus.rs and crates/runtime/src/outbox.rs: the bus, its builder and its
-- publishers. A transport's stream of deliveries and a spawned task are parameters.
pub mod Started
use sisa_messaging_rs.Prelude.{
  Bool, true, false, not, ◌&&◌, List, [], ◌∷◌, ◌++◌, Option, none, some, Result, ok, err, map_err,
  map, ◌>>=◌ as ◌>>!◌, if◌then◌else◌,
}
use sisa_messaging_rs.Prelude.Lists.{any_of}
use sisa_messaging_rs.Prelude.Acts.{Act, pure, ◌>>=◌, ◌>>◌, ◌>>?◌}
use sisa_messaging_rs.Prelude.Text.{Text, text_eq}
use sisa_messaging_rs.Core.Envelope.Source
use sisa_messaging_rs.Core.Envelope.Source.{Source}
use sisa_messaging_rs.Core.Codec.{Message}
use sisa_messaging_rs.Core.Store.{OutboxWriter}
use sisa_messaging_rs.Core.Transport.{TransportError, EndpointSpec, TransportPublisher}
use sisa_messaging_rs.Runtime.Publish.{PublishError, transport, store as store_error, Fresh, encode}
use sisa_messaging_rs.Core.Partition.{PartitionStore}
use sisa_messaging_rs.Runtime.Dispatch
use sisa_messaging_rs.Runtime.Dispatch.{DispatchSettings}
use sisa_messaging_rs.Runtime.Endpoint.Builder.{EndpointBuilder, BuiltEndpoint, build}
use sisa_messaging_rs.Runtime.Inbox.{HandlerOutbox}
use sisa_messaging_rs.Runtime.Maintenance.{PartitionSettings, PartitionMode, managed, external}
use sisa_messaging_rs.Runtime.StartError.{
  StartError, envelope, duplicate_endpoint, inbox_before_outbox, dispatch_settings, subscribe,
}

abbrev pub Maintenance : Type 0 → Type 0
Maintenance W = PartitionStore W × PartitionSettings

-- An endpoint with its name, or why it cannot be built.
abbrev pub AddedEndpoint : Type 0 → Type 0
AddedEndpoint W = Text × Result StartError (BuiltEndpoint W)

-- Of the outbox, only whether the bus has one; a handler's pipeline holds the outbox itself.
pub record BusBuilder (W : Type 0) : Type 0 where
  pub source : Text
  pub endpoints : List (AddedEndpoint W)
  pub maintenance : List (Maintenance W)
  pub has_outbox : Bool
  pub dispatch : DispatchSettings

-- A task of the bus, with what it is spawned with.
pub data Worker (W Deliveries : Type 0) : Type 0 where
  receiving : BuiltEndpoint W → Source → Deliveries → Worker W Deliveries
  maintaining : Maintenance W → Worker W Deliveries
  dispatching : DispatchSettings → Worker W Deliveries

pub record Bus (W Deliveries : Type 0) : Type 0 where
  pub source : Source
  pub endpoints : List Text
  pub workers : List (Worker W Deliveries)

-- The transport's receiving half, and Tokio's tasks: `spawn`, the stop signal, and awaiting a
-- worker's handle.
pub record Runtime (W Deliveries : Type 0) : Type 0 where
  pub subscribe : EndpointSpec → Act W (Result TransportError Deliveries)
  pub spawn : Worker W Deliveries → Act W (Unit {0})
  pub send_stop : Act W (Unit {0})
  pub join : Worker W Deliveries → Act W (Unit {0})

abbrev is_managed : PartitionMode → Bool
is_managed managed = true
is_managed external = false

module _ {W : Type 0} where
  unfoldable pub builder : Text → BusBuilder W
  builder source = record {
    source = source;
    endpoints = [];
    maintenance = [];
    has_outbox = false;
    dispatch = Dispatch.default;
  }

  abbrev before_outbox : AddedEndpoint W → AddedEndpoint W
  before_outbox (name, ok endpoint) =
      if endpoint.is_transactional
      then (name, err (inbox_before_outbox name))
      else (name, ok endpoint)
  before_outbox (name, err e) = (name, err e)

  unfoldable pub outbox : BusBuilder W → BusBuilder W
  outbox b = record b { endpoints = map before_outbox b.endpoints; has_outbox = true }

  unfoldable pub dispatch : DispatchSettings → BusBuilder W → BusBuilder W
  dispatch settings b = record b { dispatch = settings }

  -- `configure` was called; the outbox is the builder's at this point.
  unfoldable pub endpoint :
      {Transaction : Type 0}
      → EndpointBuilder W Transaction
      → HandlerOutbox W Transaction
      → BusBuilder W
      → BusBuilder W
  endpoint configured outbox b = record b {
    endpoints = b.endpoints ++ ((configured.name, build configured outbox) ∷ []);
  }

  unfoldable pub partitions : PartitionStore W → PartitionSettings → BusBuilder W → BusBuilder W
  partitions store settings b =
      if is_managed settings.partitions
      then record b { maintenance = b.maintenance ++ ((store, settings) ∷ []) }
      else b

  -- The loop over the endpoints, with the names it met.
  unfoldable pub check_endpoints :
      List Text → List (AddedEndpoint W) → Result StartError (List (BuiltEndpoint W))
  check_endpoints names [] = ok []
  check_endpoints names ((name, built) ∷ added) =
      if any_of (text_eq name) names
      then err (duplicate_endpoint name)
      else (built >>! λ e. check_endpoints (name ∷ names) added >>! λ es. ok (e ∷ es))

  -- What `start` checks before it subscribes.
  unfoldable pub check : BusBuilder W → Result StartError (Source × List (BuiltEndpoint W))
  unfolding check_endpoints
  check b = map_err envelope (Source.new b.source) >>! λ source.
      elim (Dispatch.invalid b.dispatch) [
        | some reason ↦ err (dispatch_settings reason)
        | none ↦ (check_endpoints [] b.endpoints >>! λ es. ok (source, es))
      ]

  abbrev pub spec_of : BuiltEndpoint W → EndpointSpec
  spec_of e = record { name = e.endpoint.name; message_types = e.message_types }

  module _ {Deliveries : Type 0} (runtime : Runtime W Deliveries) where
    -- `map_err` to `StartError::Subscribe`.
    abbrev subscribe_one : BuiltEndpoint W → Act W (Result StartError Deliveries)
    subscribe_one e = do
      r ← runtime.subscribe (spec_of e)
      pure (map_err (subscribe e.endpoint.name) r)

    unfoldable pub subscribe_all :
        List (BuiltEndpoint W) → Act W (Result StartError (List (BuiltEndpoint W × Deliveries)))
    subscribe_all [] = pure (ok [])
    subscribe_all (e ∷ es) = subscribe_one e >>? λ deliveries.
        subscribe_all es >>? λ subscribed. pure (ok ((e, deliveries) ∷ subscribed))

    abbrev pub workers_of :
        Source → List (BuiltEndpoint W × Deliveries) → BusBuilder W → List (Worker W Deliveries)
    workers_of source subscribed b =
        map (λ s. receiving s.0 source s.1) subscribed
        ++ (map maintaining b.maintenance
            ++ (if b.has_outbox then dispatching b.dispatch ∷ [] else []))

    unfoldable pub spawn_all : List (Worker W Deliveries) → Act W (Unit {0})
    spawn_all [] = pure tt
    spawn_all (worker ∷ workers) = do runtime.spawn worker; spawn_all workers

    unfoldable pub start : BusBuilder W → Act W (Result StartError (Bus W Deliveries))
    start b = elim (check b) [
      | err e ↦ pure (err e)
      | ok (source, es) ↦ subscribe_all es >>? λ subscribed. do
        spawn_all (workers_of source subscribed b)
        pure (
            ok (record {
              source = source;
              endpoints = map (λ s. s.0.endpoint.name) subscribed;
              workers = workers_of source subscribed b;
            }))
    ]

    -- The workers, the last one first.
    unfoldable pub join_all : List (Worker W Deliveries) → Act W (Unit {0})
    join_all [] = pure tt
    join_all (worker ∷ workers) = do join_all workers; runtime.join worker

    unfoldable pub shutdown : Bus W Deliveries → Act W (Bus W Deliveries)
    unfolding join_all
    shutdown bus = do runtime.send_stop; join_all bus.workers; pure (record bus { workers = [] })

module _ {W Msg : Type 0} (fresh : Fresh W) (message : Message Msg) where
  -- `Bus::publish`, straight to the broker.
  unfoldable pub publish :
      TransportPublisher W → Source → Msg → Act W (Result PublishError (Unit {0}))
  publish broker source m = encode fresh message source m >>? λ e. do
    sent ← broker.publish e
    pure (map_err transport sent)

  -- `OutboxPublisher::publish`, a row in the caller's transaction.
  unfoldable pub publish_row :
      {Transaction : Type 0}
      → OutboxWriter W Transaction
      → Source
      → Transaction
      → Msg
      → Act W (Result PublishError (Unit {0}) × Transaction)
  publish_row writer source t m = do
    encoded ← encode fresh message source m
    elim encoded [
      | err e ↦ pure (err e, t)
      | ok e ↦ do (inserted, t') ← writer.insert t (e ∷ []); pure (map_err store_error inserted, t')
    ]
