-- ===== src/Sim.antt =====
-- simulator/sim.c: the Oxalyn-64 machine, as `make simulator` builds it (with the GPU).
pub mod Port
pub mod Index
pub mod Status
pub mod Pending
pub mod Priv
pub mod Cause
pub mod Opcode
pub mod State
pub mod Mpu
pub mod Trap
pub mod Irq
pub mod Csr
pub mod Exec
pub mod Step
pub mod Cold
pub mod Load
mod Tests
