-- ===== src/Egress.antt =====
-- crates/clawcrate-sandbox/src/egress_proxy.rs: the proxy that lets allowed domains through.
pub mod Hosts
pub mod Lines
pub mod Sni
pub mod Handler
pub mod Enforced
pub mod Rules
pub mod Bounded
mod Tests
pub mod Denials
