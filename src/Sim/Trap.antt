-- ===== src/Sim/Trap.antt =====
-- Traps of simulator/sim.c: trap() with its two ways, and the return from them by OP_ERET.
pub mod Mstatus
pub mod Laws
use oxalyn.Base.{
  ℕ, ◌+◌, ◌*◌, ◌-◌, ◌%◌, ◌^◌, Bool, true, false, not, ◌&&◌, ◌||◌, bit_and, bit_or, ltb, ◌==◌,
  if◌then◌else◌, has, shr, u8, u32, not32, not64, add32,
}
use oxalyn.Sim.Index
use oxalyn.Sim.Status
use oxalyn.Sim.Priv
use oxalyn.Sim.Cause
use oxalyn.Sim.State.{Cpu, Health, set_csr, flush}

unfoldable pub is_recoverable_cause : ℕ → Bool
is_recoverable_cause cause =
    cause == Cause.ill_insn
    || cause == Cause.mpu_read
    || cause == Cause.mpu_write
    || cause == Cause.mpu_exec
    || cause == Cause.div_zero

-- MSTATUS on the way into supervisor mode: SPP from the privilege, SPIE from SIE, SIE cleared.
unfoldable pub enter_supervisor : ℕ → ℕ → ℕ
enter_supervisor priv st =
    let spp = if priv == Priv.supervisor then Status.spp else 0 in
    let st = bit_or (bit_and st (not32 Status.spp)) spp in
    let st = if has st Status.sie then bit_or st Status.spie else bit_and st (not32 Status.spie) in
    bit_and st (not32 Status.sie)

-- MSTATUS on the way into machine mode: MPP from the privilege, MPIE from MIE, MIE cleared.
unfoldable pub enter_machine : ℕ → ℕ → ℕ
enter_machine priv st =
    let st = bit_or (bit_and st (not64 Status.mpp)) (priv % 4 * 8) in
    let st = if has st Status.mie then bit_or st Status.mpie else bit_and st (not32 Status.mpie) in
    bit_and st (not32 Status.mie)

-- `priv = ...; csr[CSR_PRIV] = priv;`
unfoldable pub set_priv : Cpu → ℕ → Cpu
unfolding set_csr
set_priv c p = set_csr (record c { priv = p }) Index.priv p

-- The trap that MEDELEG hands to supervisor mode. `st` is a uint32_t there.
unfoldable pub trap_supervisor : Cpu → ℕ → Cpu
unfolding enter_supervisor set_priv set_csr flush
trap_supervisor c cause =
    let st = enter_supervisor c.priv (u32 (c.csr Index.mstatus)) in
    let c = set_csr (set_csr c Index.sepc c.pc) Index.scause cause in
    let c = flush (set_priv (set_csr c Index.mstatus st) Priv.supervisor) in
    record c { pc = u32 (c.csr Index.stvec) }

-- The counters of the self-healing mode.
unfoldable pub count_recovery : Health → ℕ → Health
count_recovery h cause =
    if cause == Cause.ill_insn
    then record h { illegal_recovered = add32 h.illegal_recovered 1 }
    else if cause == Cause.div_zero
    then record h { div_recovered = add32 h.div_recovered 1 }
    else record h { mpu_recovered = add32 h.mpu_recovered 1 }

-- The state in which a machine mode trap or interrupt finds the machine: MEPC, MCAUSE, MSTATUS
-- and the privilege are set.
unfoldable pub save_machine : Cpu → ℕ → Cpu
unfolding enter_machine set_priv set_csr
save_machine c cause =
    let st = enter_machine c.priv (c.csr Index.mstatus) in
    let c = set_csr (set_csr c Index.mepc c.pc) Index.mcause cause in
    set_priv (set_csr c Index.mstatus st) Priv.machine

unfoldable pub trap_machine : Cpu → ℕ → Cpu
unfolding save_machine flush is_recoverable_cause count_recovery
trap_machine c cause =
    let c = flush (save_machine c cause) in
    if c.csr Index.mtvec == 0
    then if c.resilient && is_recoverable_cause cause
      then record c { health = count_recovery c.health cause }
      else record c { halted = true }
    else record c { pc = u32 (c.csr Index.mtvec) }

-- The test for a delegated exception.
unfoldable pub delegated : Cpu → ℕ → Bool
delegated c cause =
    not (c.priv == Priv.machine)
    && ltb cause 16
    && has (c.csr Index.medeleg) (2 ^ cause)
    && not (c.csr Index.stvec == 0)

unfoldable pub trap : Cpu → ℕ → Cpu
unfolding delegated trap_supervisor trap_machine
trap c cause =
    let c = record c { health = record c.health { total_traps = add32 c.health.total_traps 1 } } in
    if delegated c cause then trap_supervisor c cause else trap_machine c cause

-- SRET. The mode bits of MSTATUS are read in turn, as the source writes them.
unfoldable pub sret : Cpu → Cpu
unfolding set_priv set_csr flush
sret c =
    let p = if has (c.csr Index.mstatus) Status.spp then Priv.supervisor else Priv.user in
    let c = set_priv c p in
    let c = record c { pc = u32 (c.csr Index.sepc) } in
    let st = c.csr Index.mstatus in
    let st = if has st Status.spie then bit_or st Status.sie else bit_and st (not32 Status.sie) in
    let st = bit_or st Status.spie in
    flush (set_csr c Index.mstatus (bit_and st (not32 Status.spp)))

-- MRET.
unfoldable pub mret : Cpu → Cpu
unfolding set_priv set_csr flush
mret c =
    let c = set_priv c (shr (c.csr Index.mstatus) 3 % 4) in
    let c = flush (record c { pc = u32 (c.csr Index.mepc) }) in
    let st = c.csr Index.mstatus in
    let st = if has st Status.mpie then bit_or st Status.mie else bit_and st (not32 Status.mie) in
    set_csr c Index.mstatus (bit_or st Status.mpie)

unfoldable pub eret : Cpu → Cpu
unfolding trap sret mret
eret c =
    if c.priv == Priv.user
    then trap c Cause.eret_priv
    else if c.priv == Priv.supervisor
    then sret c
    else mret c

unfoldable pub ecall : Cpu → Cpu
unfolding trap
ecall c =
    if c.priv == Priv.user
    then trap c Cause.ecall_u
    else if c.priv == Priv.supervisor
    then trap c Cause.ecall_s
    else c
