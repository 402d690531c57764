-- ===== src/Runtime.antt =====
-- crates/runtime: the workers of the bus and the steps of a delivery.
pub mod InMemory
pub mod Retry
pub mod StartError
pub mod Bus
pub mod Dispatch
pub mod Publish
pub mod Handler
pub mod Endpoint
pub mod Inbox
pub mod Maintenance
