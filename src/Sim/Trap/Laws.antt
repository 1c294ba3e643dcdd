-- ===== src/Sim/Trap/Laws.antt =====
-- What trap() and OP_ERET do together: who runs afterwards, and that a handler's ERET resumes
-- the program that was interrupted.
use oxalyn.Base.{
  ℕ, ◌^◌, ◌≤◌, ◌<◌, ◌≡◌, ◌≢◌, refl, ◌⊎◌, inl, inr, true, false, ◌&&◌, ◌==◌, ◌∙◌, u32, arith, update,
  Bool-cases, if◌then◌else◌,
}
use oxalyn.Base.Bits.{bit}
use oxalyn.Sim.Index
use oxalyn.Sim.Priv
use oxalyn.Sim.State.{Cpu}
use oxalyn.Sim.Trap.{delegated, trap, eret, enter_supervisor, is_recoverable_cause}
use oxalyn.Sim.Trap.Mstatus.{enter_machine_bits, mret_mie, enter_supervisor_bits, sret_sie, has-spp}

-- The program's own state, which a trap and the return from it must not touch.
pub record Resumes (c c' : Cpu) : Type 0 where
  pub same_reg : c'.reg ≡ c.reg
  pub same_mem : c'.mem ≡ c.mem
  pub same_flags : c'.flags ≡ c.flags
  pub same_pc : c'.pc ≡ c.pc
  pub same_priv : c'.priv ≡ c.priv
  pub same_halted : c'.halted ≡ c.halted

-- A trap that goes to machine mode, with a handler installed, is undone by the handler's ERET: the
-- program continues where it was, with its registers, memory, flags and privilege, and with
-- interrupts enabled in machine mode as before.
pub eret-trap_machine :
    (c : Cpu) (cause : ℕ)
    → c.pc < 2 ^ 32
    → c.priv < 3
    → c.csr Index.mtvec ≢ 0
    → delegated c cause ≡ false
    → let c' = eret (trap c cause) in
      Resumes c c' × (bit 0 (c'.csr Index.mstatus) ≡ bit 0 (c.csr Index.mstatus))
unfolding trap eret update
eret-trap_machine c cause p q h d =
    let handled : (c.csr Index.mtvec == 0) ≡ false = ground arith in
    let b = enter_machine_bits c.priv (c.csr Index.mstatus) in
    rw (d, handled)
      (
        record {
          same_reg = refl;
          same_mem = refl;
          same_flags = refl;
          same_pc = omega arith;
          same_priv = omega (arith, b.2);
          same_halted = refl;
        },
        mret_mie _ ∙ b.1,
      )

-- A trap that MEDELEG hands to supervisor mode is undone by that handler's ERET in the same way,
-- with SIE as it was: the user's or the supervisor's program continues where it was.
pub eret-trap_supervisor :
    (c : Cpu) (cause : ℕ)
    → c.pc < 2 ^ 32
    → c.priv < 3
    → delegated c cause ≡ true
    → let c' = eret (trap c cause) in
      Resumes c c' × (bit 5 (c'.csr Index.mstatus) ≡ bit 5 (u32 (c.csr Index.mstatus)))
unfolding trap eret update
eret-trap_supervisor c cause p q d =
    let st = u32 (c.csr Index.mstatus) in
    let b = enter_supervisor_bits c.priv st in
    let below : c.priv ≢ 0 = unfold delegated in ground arith in
    rw d (
      record {
        same_reg = refl;
        same_mem = refl;
        same_flags = refl;
        same_pc = omega arith;
        same_priv = ground (arith, has-spp (enter_supervisor c.priv st), b.2);
        same_halted = refl;
      },
      sret_sie _ ∙ b.1,
    )

-- Where a trap leads, on every branch: never to a mode with fewer rights, and CSR_PRIV follows. A
-- delegated trap goes on at STVEC in supervisor mode. Any other enters machine mode: with a handler
-- installed (MTVEC is not 0) it goes on at MTVEC; with none, it stays where it is and, if the
-- self-healing mode covers the cause, goes on, and halts otherwise. In no other of these cases does
-- the halted flag change.
pub trap_outcome :
    (c : Cpu) (cause : ℕ)
    → let c' = trap c cause in
      (c'.priv ≤ c.priv)
      × (c'.csr Index.priv ≡ c'.priv)
      × (((delegated c cause ≡ true)
            × (c'.priv ≡ Priv.supervisor)
            × (c'.pc ≡ u32 (c.csr Index.stvec))
            × (c'.halted ≡ c.halted))
          ⊎ ((delegated c cause ≡ false)
              × (c'.priv ≡ Priv.machine)
              × (((c.csr Index.mtvec ≢ 0)
                    × (c'.pc ≡ u32 (c.csr Index.mtvec))
                    × (c'.halted ≡ c.halted))
                  ⊎ ((c.csr Index.mtvec ≡ 0)
                      × (c'.pc ≡ c.pc)
                      × (c'.halted ≡ (
                          if c.resilient && is_recoverable_cause cause then c.halted else true))))))
unfolding trap update
trap_outcome c cause = elim (Bool-cases (delegated c cause)) [
  | inl d ↦ rw d (unfold delegated in ground arith, refl, inl (refl, refl, refl, refl))
  | inr d ↦ elim (Bool-cases (c.csr Index.mtvec == 0)) [
    | inr handled ↦
        let some_handler : c.csr Index.mtvec ≢ 0 = ground arith in
        rw (d, handled) (omega arith, refl, inr (refl, refl, inl (some_handler, refl, refl)))
    | inl bare ↦
        let no_handler : c.csr Index.mtvec ≡ 0 = ground arith in
        elim (Bool-cases (c.resilient && is_recoverable_cause cause)) [
          | inl heals ↦
              rw (d, bare, heals)
                (omega arith, refl, inr (refl, refl, inr (no_handler, refl, refl)))
          | inr dies ↦
              rw (d, bare, dies) (omega arith, refl, inr (refl, refl, inr (no_handler, refl, refl)))
        ]
  ]
]
