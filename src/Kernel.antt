-- ===== src/Kernel.antt =====
-- The HILAL_BIS kernel, kernel/: one module for each source file that is modelled.
pub mod Search
pub mod Memory
pub mod Kstring
pub mod Process
pub mod GuiGuard
pub mod Scheduler
pub mod Syscalls
pub mod Perms
pub mod Files
pub mod Net
pub mod Tcp
pub mod Syslog
pub mod Rtc
pub mod Ipc
mod Tests
