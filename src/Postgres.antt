-- ===== src/Postgres.antt =====
-- crates/postgres: the tables behind the store contracts.
pub mod Inbox
pub mod Partitions
pub mod Outbox
