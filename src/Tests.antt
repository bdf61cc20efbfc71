-- ===== src/Tests.antt =====
-- Concrete values, and the theorems at them.
pub mod Values
mod Daemon
mod Loop
mod Reports
mod Capture
mod Recorder
mod Service
mod Config
