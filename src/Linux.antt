-- ===== src/Linux.antt =====
-- crates/clawcrate-sandbox/src/linux.rs and linux_notify.rs: the backend that confines a command on
-- Linux. `Syscalls` and `Rules` are the seccomp filter, `Filter` its retargeting to notifications,
-- `Supervisor` the thread that answers them, `Landlock` and `Anchors` the file system rules,
-- `Launch` the order in which a child is prepared. The kernel is an argument of each.
pub mod Syscalls
pub mod Rules
pub mod Supervisor
pub mod Filter
pub mod Landlock
pub mod Anchors
pub mod Limits
pub mod Launch
pub mod Enforcement
mod Tests
mod Confinement
