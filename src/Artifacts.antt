-- ===== src/Artifacts.antt =====
-- crates/sol-artifacts/src/actor/mod.rs: the actor that keeps the ABIs of the projects under the watched
-- folders. The file system, its watcher, the mailbox, the settings and the database are parameters.
pub mod Paths
pub mod Roots
pub mod Covering
pub mod Abi
pub mod Actor
pub mod Debounce
pub mod Updates
mod Tests
