-- ===== src/Sim/Csr.antt =====
-- csr_read and csr_write of simulator/sim.c: the access table of the control registers.
pub mod Laws
use oxalyn.Base.{
  ℕ, ◌≤◌, ◌^◌, Bool, true, false, not, ◌&&◌, ◌||◌, ltb, leb, ◌==◌, if◌then◌else◌, shr,
}
use oxalyn.Sim.Index
use oxalyn.Sim.Priv
use oxalyn.Sim.Cause
use oxalyn.Sim.State.{Cpu, set_csr}
use oxalyn.Sim.Trap.{trap}

-- PRIV to MSTATUS, the MPU registers, and MIE to MEDELEG.
unfoldable pub machine_only : ℕ → Bool
machine_only idx = ltb idx 5 || (leb 8 idx && ltb idx Index.sie)

-- SEPC, STVEC, SATP and SIE.
unfoldable pub supervisor_rw : ℕ → Bool
supervisor_rw idx = (leb 5 idx && ltb idx 8) || idx == Index.sie

unfoldable pub read_only : ℕ → Bool
read_only idx =
    idx == Index.priv
    || idx == Index.mcause
    || idx == Index.mtime
    || idx == Index.mtime_hi
    || idx == Index.scause

-- The value of a register that may be read.
unfoldable pub csr_value : Cpu → ℕ → ℕ
csr_value c idx =
    if idx == Index.priv
    then c.priv
    else if idx == Index.mtime
    then c.cycles
    else if idx == Index.mtime_hi
    then shr c.cycles 32
    else c.csr idx

unfoldable pub csr_read : Cpu → ℕ → ℕ × Cpu
csr_read c idx =
    if leb Index.count idx
    then (0, c)
    else if machine_only idx && not (c.priv == Priv.machine)
    then (0, trap c Cause.csr_priv)
    else if (supervisor_rw idx || idx == Index.scause) && c.priv == Priv.user
    then (0, trap c Cause.csr_priv)
    else (csr_value c idx, c)

unfoldable pub csr_write : Cpu → ℕ → ℕ → Cpu
csr_write c idx val =
    if leb Index.count idx
    then c
    else if machine_only idx && not (c.priv == Priv.machine)
    then trap c Cause.csr_priv
    else if supervisor_rw idx && c.priv == Priv.user
    then trap c Cause.csr_priv
    else if read_only idx
    then c
    else set_csr c idx val
