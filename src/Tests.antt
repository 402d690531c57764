-- ===== src/Tests.antt =====
-- The model run on concrete inputs, and the theorems at concrete arguments.
pub mod Sample
mod Inbox
mod Dispatch
pub mod Endpoint
mod Envelopes
mod Times
mod Partitions
mod Outbox
mod Bus
mod InMemory
mod Wakeups
mod Nats
mod Headers
mod Statements
mod Run
