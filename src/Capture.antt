-- ===== src/Capture.antt =====
-- crates/clawcrate-capture/src/lib.rs: what a run has printed, within one budget for both
-- streams, and what it has changed in the file system.
pub mod Streams
pub mod Snapshots
