-- ===== src/Sim/Tests.antt =====
-- Small machines, and the theorems of simulator/sim.c at them.
use oxalyn.Base.{
  ◌∷◌, [], ℕ, ◌≡◌, ◌≢◌, ◌≤◌, ◌⊎◌, refl, true, false, some, arith, update, ◌&&◌, if◌then◌else◌,
}
use oxalyn.Base.Bits.{bit}
use oxalyn.Sim.Index
use oxalyn.Sim.Cause
use oxalyn.Sim.State.{Cpu}
use oxalyn.Sim.Trap.{trap, eret, delegated, is_recoverable_cause}
use oxalyn.Sim.Trap.Laws.{Resumes, eret-trap_machine, eret-trap_supervisor, trap_outcome}
use oxalyn.Sim.Csr.{csr_read, csr_write, read_only}
use oxalyn.Sim.Csr.Laws.{csr_read_table, csr_read-csr_write}
use oxalyn.Sim.Irq.{poll_interrupt_sources}
use oxalyn.Sim.Irq.Laws.{core, timer_bit, poll-Keeps}
use oxalyn.Sim.Exec.Table.{execute}
use oxalyn.Sim.Exec.Confine.{Confined}
use oxalyn.Sim.Exec.Isolation.{execute-Confined}
use oxalyn.Sim.Cold.{cold}
use oxalyn.Asm.Pass.{write_bin}
use oxalyn.Sim.Load.{load_bin, eeprom_load, eeprom_save}
use oxalyn.Sim.Load.Files.{load_bin-write_bin, eeprom_load-eeprom_save}
use oxalyn.Sim.Step.{cpu_run}
use oxalyn.Sim.Step.Livelock.{cpu_run-stuck}

-- A user program at 0x40 under handlers at 0x10 and 0x20; the illegal instruction is delegated.
abbrev control : ℕ → ℕ
control =
    update (update (update (update (λ i. 0) Index.mtvec 0x10) Index.stvec 0x20) Index.mstatus 33)
      Index.medeleg 2

abbrev in_user : Cpu
in_user = record cold { priv = 2; pc = 0x40; csr = control }

-- A machine whose timer is due and enabled while MTVEC is 0.
abbrev timer_machine : Cpu
timer_machine = record cold {
  cycles = 9;
  csr = update (update (update (λ i. 0) Index.mstatus 1) Index.mie 1) Index.mtimecmp 5;
}

eret-trap_machine_example :
    let c' = eret (trap in_user Cause.ecall_u) in
    Resumes in_user c' × (bit 0 (c'.csr Index.mstatus) ≡ bit 0 33)
unfolding update
eret-trap_machine_example =
    eret-trap_machine in_user Cause.ecall_u (omega arith) (omega arith) (omega arith)
      (unfold delegated in refl)

eret-trap_supervisor_example :
    let c' = eret (trap in_user Cause.ill_insn) in
    Resumes in_user c' × (bit 5 (c'.csr Index.mstatus) ≡ bit 5 33)
unfolding update
eret-trap_supervisor_example =
    eret-trap_supervisor in_user Cause.ill_insn (omega arith) (omega arith)
      (unfold delegated in refl)

trap_outcome_example :
    let c' = trap in_user Cause.io_priv in
    (c'.priv ≤ 2)
    × (c'.csr Index.priv ≡ c'.priv)
    × (((delegated in_user Cause.io_priv ≡ true)
          × (c'.priv ≡ 1)
          × (c'.pc ≡ 0x20)
          × (c'.halted ≡ false))
        ⊎ ((delegated in_user Cause.io_priv ≡ false)
            × (c'.priv ≡ 0)
            × (((in_user.csr Index.mtvec ≢ 0) × (c'.pc ≡ 0x10) × (c'.halted ≡ false))
                ⊎ ((in_user.csr Index.mtvec ≡ 0)
                    × (c'.pc ≡ 0x40)
                    × (c'.halted
                        ≡ (if false && is_recoverable_cause Cause.io_priv then false else true))))))
unfolding update
trap_outcome_example = trap_outcome in_user Cause.io_priv

csr_read_table_example : csr_read in_user Index.mepc ≡ (0, trap in_user Cause.csr_priv)
csr_read_table_example = csr_read_table in_user Index.mepc (omega arith) (omega arith)

csr_read-csr_write_example :
    ((csr_read (csr_write cold Index.mtvec 0x10) Index.mtvec).0 ≡ 0x10)
    × ((other : ℕ)
        → other ≢ Index.mtvec
        → (csr_read (csr_write cold Index.mtvec 0x10) other).0 ≡ (csr_read cold other).0)
csr_read-csr_write_example =
    csr_read-csr_write cold Index.mtvec 0x10 (omega arith) refl (unfold read_only in refl)

poll-Keeps_example :
    (core (poll_interrupt_sources timer_machine) ≡ core timer_machine)
    × (timer_bit timer_machine ≤ timer_bit (poll_interrupt_sources timer_machine))
poll-Keeps_example = poll-Keeps timer_machine

-- An instruction of user mode that writes SATP, a control register.
execute-Confined_example : Confined in_user (execute 0x50000007 in_user)
execute-Confined_example = execute-Confined 0x50000007 in_user refl

cpu_run-stuck_example :
    (c' : Cpu) × (cpu_run 1000 (some 500) timer_machine ≡ some c') × (core c' ≡ core timer_machine)
unfolding bit
cpu_run-stuck_example = cpu_run-stuck 1000 (some 500) timer_machine (unfold update in refl)

load_bin-write_bin_example : (load_bin (some (write_bin (7 ∷ 9 ∷ []))) cold).1.mem 1 ≡ 9
load_bin-write_bin_example = load_bin-write_bin (7 ∷ 9 ∷ []) cold 1 (omega arith)

-- Every word is 2 ^ 32 + 5.
abbrev wide : Cpu
wide = record cold { eeprom = λ i. 0x100000005; eeprom_dirty = true }

eeprom_load-eeprom_save_example : (eeprom_load (eeprom_save wide) cold).eeprom 3 ≡ 5
eeprom_load-eeprom_save_example = eeprom_load-eeprom_save wide cold 3 refl (omega arith)
