-- ===== src/Tests.antt =====
-- Concrete values, stores and clients, and the theorems at them.
pub mod Wire
pub mod Data
mod Codes
mod Counted
mod Memory
mod Asked
mod Flowed
pub mod Trimmed
mod Kept
mod Profiled
pub mod Numbered
mod Raced
mod Served
pub mod Processed
mod Piped
mod Expected
mod Contained
mod Configured
mod Routed
