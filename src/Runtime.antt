-- ===== src/Runtime.antt =====
-- crates/flume-runtime: what moves the elements between operators.
pub mod Watermark
pub mod Merge
pub mod RingBuffer
pub mod Partition
pub mod Coordinator
pub mod Dag
pub mod Physical
pub mod Aligner
