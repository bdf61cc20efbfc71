-- ===== src/Daemon.antt =====
-- src/daemon.rs: the recording daemon.
pub mod Serve
pub mod Delta
pub mod Rate
pub mod Sample
pub mod Retention
pub mod History
pub mod Budget
pub mod Loop
