-- ===== src/State.antt =====
-- crates/flume-state: the state of the operators, and its snapshots.
pub mod Codec
pub mod Memory
pub mod Keyed
mod Tests
