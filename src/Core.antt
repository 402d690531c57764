-- ===== src/Core.antt =====
-- crates/core: the envelope, its parts, and the contracts of stores and transports.
pub mod Error
pub mod MessageType
pub mod MessageId
pub mod Time
pub mod Envelope
pub mod Codec
pub mod Store
pub mod Transport
pub mod Partition
