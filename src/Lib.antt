-- ===== src/Lib.antt =====
-- A model of sisa-messaging-rs, a message bus with a transactional outbox and an inbox.
--
-- The parts, and how they work together:
--   * Prelude: text as Unicode characters, signed integers, `BTreeMap` as a list in key order,
--     `Result`, and effects as `Act W A = W → A × W`. The code that talks to a database or a broker
--     is written over any `W` and any store or transport (records of operations), so an answer may
--     depend on everything that came before, on other instances and tasks included.
--   * Core (crates/core/src): the envelope and its parts (error.rs, message.rs, envelope.rs), dates
--     and instants (time.rs), the JSON codec's own checks (codec.rs), and the interfaces of stores,
--     transports and partitions (store.rs, transport.rs, partition.rs).
--   * Runtime (crates/runtime/src): the retry policy (retry.rs), the outbox dispatcher (dispatch.rs),
--     publishing from a handler (publish.rs, handler.rs), a delivery's handling and settling
--     (endpoint.rs), the inbox pipeline (inbox.rs), partition maintenance (maintenance.rs), the bus
--     and its builders (bus.rs, outbox.rs, the builder of endpoint.rs) and the in-memory transport
--     (in_memory.rs).
--   * Nats (crates/nats/src): connecting, publishing, subscribing, and what becomes of a pulled
--     message (settings.rs, transport.rs, subscribe.rs). Nats/Headers.antt has what async-nats
--     documents of its header maps, as a record of laws.
--   * Postgres (crates/postgres/src): the inbox's statements on the rows of `inbox_receipts`
--     (inbox.rs), over which Runtime.Inbox runs by the record InboxStore; those of the outbox on the
--     rows of `outbox_messages` (outbox.rs), over which Runtime.Dispatch runs by the record
--     OutboxStore; and those of a table's partitions, with the partitions that `ensure_partitions`
--     creates (partitions.rs), for Runtime.Maintenance by the record PartitionStore.
-- The function and type names are the source's. A method is a function of its module, as
-- `Retry.delay` for `RetryPolicy::delay`; the match arms of `Endpoint::process` are the functions
-- of Runtime/Endpoint/Settle.antt, and those of `Transactional::run` the functions of
-- Runtime/Inbox.antt.
--
-- Environments: Runtime/Dispatch/Trace.antt and Runtime/Endpoint/Process.antt take for `W` the list
-- of what happened, with every answer an arbitrary function of it. Theorems over every such
-- environment hold whatever the database, the broker, the clock and the stop signal do; those of
-- Runtime/Bus/Started/Spawned.antt and of Nats do the same for the transport's server. The receiving
-- loop (Runtime/Endpoint/Receive.antt) runs in the environment of one delivery, with the arrivals
-- and the stop signal as further functions of what happened.
--
-- Interleavings: Postgres/Outbox/History.antt has one step for each SQL statement of any dispatcher,
-- and for each commit of an application's transaction. Deliveries to the inbox (Postgres/Inbox) are
-- serial: no other instance commits a receipt while a handler runs. Runtime/InMemory/Copies.antt has
-- one step for each operation under the transport's lock, and Runtime/InMemory/Wakeups.antt one for
-- each that a subscriber makes between the locks. Postgres/Partitions/Attempts.antt runs
-- `ensure_partitions` against a database whose answer to each creation is any function of the attempts
-- before it; a creation that is refused is taken to have created nothing.
--
-- Bounds: Rust's `u32` and `Duration` arithmetic that saturates is written out; `i64` and `i128`
-- values are integers, since dates are kept within years 0000 to 9999. Every loop is structural
-- recursion, on a list or on the number of rounds; the `while` of `ensure_partitions` gets as many
-- rounds as its stretch has days, which is enough since each round moves on by a day at least. The
-- loops of the dispatcher, of the maintenance worker and of an endpoint have no end of their own:
-- Runtime/Dispatch/Run.antt, Runtime/Maintenance/Run.antt and Runtime/Endpoint/Receive.antt run at
-- most so many turns of them, and say whether the loop ended in these.
--
-- Parameters: the `uuid` crate's text form (Core.MessageId.UuidText), the conversion of errors to
-- handler errors and the errors' text, serde_json's answers (Core/Codec.antt), the clock and new
-- ids (Runtime.Publish.Fresh, Runtime.Dispatch.Timing), handlers, PostgreSQL's answers
-- (Postgres.Inbox.Answers, Postgres.Outbox.Texts, Postgres.Outbox.Statements.Answers), the answers
-- to the partitions' statements (Postgres.Partitions.Statements.Sql), Tokio's tasks
-- (Runtime.Bus.Runtime), async-nats (Nats.HeaderMaps, Nats.Jetstream, Nats.Connect.Client), and
-- Tokio's `Notify` (Runtime.InMemory.Wakeups).
--
-- Not modelled: logs and spans; the tasks that Tokio spawns around the loops, and its channels; the
-- clock; the serde implementations; migrations; the test servers of crates/testing.
pub mod Prelude
pub mod Core
pub mod Runtime
pub mod Nats
pub mod Postgres
pub mod Tests
