-- ===== src/Profiles.antt =====
-- crates/clawcrate-profiles/src/lib.rs: profiles, their inheritance and what they resolve to.
pub mod Merge
pub mod Resolve
pub mod Chain
pub mod Stack
pub mod Overrides
mod Tests
