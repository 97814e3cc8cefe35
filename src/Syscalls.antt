-- ===== src/Syscalls.antt =====
-- The system calls: the `internal_` functions of src/.
pub mod Common
pub mod SemOpen
pub mod SemClose
pub mod SemWait
pub mod SemPost
pub mod Schedule
pub mod Balance
pub mod Blocking
pub mod Birth
pub mod Death
pub mod Sleep
pub mod Files
pub mod Trap
pub mod Start
pub mod Session
