-- ===== src/Sim/Step/Livelock.antt =====
-- The case of cpu_step in which nothing ever happens: a machine timer that is due and enabled while
-- no handler is installed (MTVEC is 0).
use oxalyn.Base.{
  ℕ, zero, suc, ◌≡◌, refl, ap, ◌∙◌, Bool, true, false, not, ◌&&◌, Option, some, ◌==◌, inl, inr,
  Bool-cases, arith, has, update,
}
use oxalyn.Base.Bits.{bit, bit-bit_and}
use oxalyn.Sim.Index
use oxalyn.Sim.Status
use oxalyn.Sim.Priv
use oxalyn.Sim.State.{Cpu, set_csr}
use oxalyn.Sim.Irq.{
  poll_interrupt_sources, interrupt_pending, machine_pending, supervisor_pending, take_interrupt,
  take_interrupt_m, pending_machine,
}
use oxalyn.Sim.Irq.Laws.{Core, core, timer_bit, timer_due, poll-Keeps, poll-timer}
use oxalyn.Sim.Step.{act, cpu_step, normal_loop, out_of_budget, may_run_fast, cpu_run}

-- Running in machine mode with the timer's interrupt due and enabled, and no handler.
abbrev pub stuck : Core → Bool
stuck k =
    k.priv == Priv.machine
    && not k.waiting
    && not k.halted
    && k.mtvec == 0
    && has k.mstatus Status.mie
    && bit 0 k.mie == 1
    && timer_due k

-- What `stuck` says, part by part.
stuck-parts :
    (k : Core)
    → stuck k ≡ true
    → ((k.priv == Priv.machine) ≡ true)
      × (k.waiting ≡ false)
      × (k.halted ≡ false)
      × ((k.mtvec == 0) ≡ true)
      × (has k.mstatus Status.mie ≡ true)
      × (bit 0 k.mie ≡ 1)
      × (timer_due k ≡ true)
stuck-parts k s = ground arith

bit-nonzero : (a : ℕ) → bit 0 a ≡ 1 → (a == 0) ≡ false
unfolding bit
bit-nonzero a h = ground arith

-- The interrupt is pending for machine mode, not for supervisor mode.
stuck-machine_pending :
    (c : Cpu) → stuck (core c) ≡ true → timer_bit c ≡ 1 → machine_pending c ≡ true
unfolding machine_pending
stuck-machine_pending c s t =
    let both : bit 0 (pending_machine c) ≡ 1 =
      omega
        (arith, bit-bit_and 0 (c.csr Index.mip) (c.csr Index.mie), (stuck-parts (core c) s).5) in
    simp ((stuck-parts (core c) s).4, bit-nonzero (pending_machine c) both) refl

stuck-supervisor_pending : (c : Cpu) → stuck (core c) ≡ true → supervisor_pending c ≡ false
unfolding supervisor_pending
stuck-supervisor_pending c s = ground arith

stuck-take : (c : Cpu) → stuck (core c) ≡ true → core (take_interrupt c) ≡ core c
unfolding take_interrupt take_interrupt_m set_csr update
stuck-take c s = simp (stuck-supervisor_pending c s, (stuck-parts (core c) s).3) refl

act-stuck : (c : Cpu) → stuck (core c) ≡ true → timer_bit c ≡ 1 → act c ≡ some (take_interrupt c)
unfolding act interrupt_pending
act-stuck c s t =
    simp ((stuck-parts (core c) s).1, (stuck-parts (core c) s).2, stuck-machine_pending c s t) refl

cpu_step-stuck :
    (c : Cpu) → stuck (core c) ≡ true → (c' : Cpu) × (cpu_step c ≡ some c') × (core c' ≡ core c)
unfolding cpu_step
cpu_step-stuck c s =
    let p = poll_interrupt_sources c in
    let same : core p ≡ core c = (poll-Keeps c).0 in
    let still : stuck (core p) ≡ true = ap stuck same ∙ s in
    (
      take_interrupt p,
      act-stuck p still (poll-timer c (stuck-parts (core c) s).6),
      stuck-take p still ∙ same,
    )

normal_loop-stuck :
    (rounds : ℕ) (max_cycles : Option ℕ) (c : Cpu)
    → stuck (core c) ≡ true
    → (c' : Cpu) × (normal_loop rounds max_cycles c ≡ some c') × (core c' ≡ core c)
unfolding normal_loop
normal_loop-stuck zero max_cycles c s = (c, refl, refl)
normal_loop-stuck (suc rounds) max_cycles c s =
    let (c1, e, k) = cpu_step-stuck c s in
    let (c2, e2, k2) = normal_loop-stuck rounds max_cycles c1 (ap stuck k ∙ s) in
    elim (Bool-cases (out_of_budget max_cycles c)) [
      | inl b ↦ (c, simp ((stuck-parts (core c) s).2, b) refl, refl)
      | inr b ↦ (c2, simp ((stuck-parts (core c) s).2, b, e, e2) refl, k2 ∙ k)
    ]

stuck-may_run_fast : (c : Cpu) → stuck (core c) ≡ true → may_run_fast c ≡ false
unfolding may_run_fast
stuck-may_run_fast c s =
    let enabled = bit-nonzero (c.csr Index.mie) (stuck-parts (core c) s).5 in ground arith

-- If the machine runs in machine mode with its timer's interrupt due and enabled and no handler
-- installed, then however many rounds cpu_run gets, and whether or not there is a bound on the
-- cycles, the registers, the memory, the PC, the flags and the cycle count stay as they are.
pub cpu_run-stuck :
    (rounds : ℕ) (max_cycles : Option ℕ) (c : Cpu)
    → stuck (core c) ≡ true
    → (c' : Cpu) × (cpu_run rounds max_cycles c ≡ some c') × (core c' ≡ core c)
unfolding cpu_run
cpu_run-stuck rounds max_cycles c s =
    let (c1, e, k) = normal_loop-stuck rounds max_cycles c s in
    (c1, simp (stuck-may_run_fast c s) e, k)
