-- ===== src/Sim/Exec.antt =====
-- execute() of simulator/sim.c: decoding, and the switch over the opcodes as a table of handlers.
-- A handler returns `none` where the C code has no defined behaviour (the overflow of the signed
-- division). The notices to a debugger's watchpoints do not touch the machine and are left out.
pub mod Insn
pub mod Alu
pub mod Memory
pub mod Branch
pub mod Io
pub mod System
pub mod Table
pub mod Dispatch
pub mod Confine
pub mod Isolation
