-- ===== src/ProcCap.antt =====
-- src/proc_cap.rs: the capture of each program's bytes. The frames' layout is the pnet crate's, a
-- parameter; the contents of /proc are arguments.
pub mod Address
pub mod Owners
pub mod Account
pub mod Recorder
