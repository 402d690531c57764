-- ===== src/Core/Envelope.antt =====
-- crates/core/src/envelope.rs: the envelope and its parts.
pub mod Source
pub mod ContentType
pub mod Extensions
pub mod Defs
pub mod Attributes
