-- ===== src/Audit.antt =====
-- crates/clawcrate-audit/src/lib.rs: the audit log, its hash chain and its block signatures.
-- `Audit/Log.antt` has the data and the writer, `Audit/Verify.antt` the verifier.
pub mod Log
pub mod Verify
pub mod Honest
pub mod Evidence
pub mod Collision
pub mod Unseen
pub mod Behind
mod Tests
