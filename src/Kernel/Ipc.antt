-- ===== src/Kernel/Ipc.antt =====
-- kernel/ipc.c: pipes and message queues. Both keep their items in an array used as a ring.
pub mod Window
pub mod Slot
pub mod Pipe
pub mod Queue
mod Tests
