-- ===== src/Core/Time.antt =====
-- crates/core/src/time.rs: the calendar, the text of numbers, dates and timestamps.
pub mod Calendar
pub mod Digits
pub mod Date
pub mod Timestamp
