-- ===== src/Sim/Mpu.antt =====
-- mpu_check of simulator/sim.c: what the memory protection unit answers. `execute` and `fetch` do
-- not call it.
pub mod Regions
use oxalyn.Base.{
  ℕ, zero, suc, ◌-◌, ◌%◌, Bool, true, false, not, bit_and, ltb, ◌==◌, if◌then◌else◌, has, shr,
}
use oxalyn.Sim.Index
use oxalyn.Sim.Priv
use oxalyn.Sim.Cause
use oxalyn.Sim.State.{Cpu, set_csr}

-- The modes 'r', 'w' and 'x'.
pub data Mode : Type 0 where
  reads writes runs : Mode

unfoldable pub mode_bit : Mode → ℕ
mode_bit reads = 1
mode_bit writes = 2
mode_bit runs = 4

unfoldable pub mode_cause : Mode → ℕ
mode_cause reads = Cause.mpu_read
mode_cause writes = Cause.mpu_write
mode_cause runs = Cause.mpu_exec

-- `return 0`, with the cause left in MCAUSE.
abbrev refuse : Cpu → ℕ → Bool × Cpu
refuse c cause = (false, set_csr c Index.mcause cause)

-- The region that the address matches decides.
unfoldable pub region_check : Cpu → Mode → ℕ → Bool × Cpu
unfolding mode_bit mode_cause
region_check c mode perm =
    if ltb (shr perm 3 % 4) c.priv
    then refuse c Cause.csr_priv
    else if not (has perm (mode_bit mode))
    then refuse c (mode_cause mode)
    else (true, c)

-- The loop over the regions, `left` of them to go.
unfoldable pub mpu_loop : ℕ → Cpu → ℕ → Mode → Bool × Cpu
mpu_loop zero c addr mode = if c.priv == Priv.machine then (true, c) else refuse c Cause.csr_priv
mpu_loop (suc left) c addr mode =
    let n = 8 - suc left in
    let mask = c.csr (Index.mpu_mask n) in
    let rest = mpu_loop left c addr mode in
    if mask == 0
    then rest
    else if bit_and addr mask == bit_and (c.csr (Index.mpu_base n)) mask
    then region_check c mode (c.csr (Index.mpu_perm n))
    else rest

unfoldable pub mpu_check : Cpu → ℕ → Mode → Bool × Cpu
mpu_check c addr mode = mpu_loop 8 c addr mode
