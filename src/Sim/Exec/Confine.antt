-- ===== src/Sim/Exec/Confine.antt =====
-- Instructions in user mode, kind by kind.
use oxalyn.Base.{
  ℕ, ◌≡◌, refl, ap, ◌⊎◌, inl, inr, Bool, true, false, List, Option, none, some, ◌==◌, if◌then◌else◌,
  arith, Bool-cases, ◌%◌, ◌^◌,
}
use oxalyn.Sim.Priv
use oxalyn.Sim.Cause
use oxalyn.Sim.State.{Cpu, Uart, GpioEvent, write_reg, gpu_read_word, gpu_write_word}
use oxalyn.Sim.Trap.{trap, ecall, eret}
use oxalyn.Sim.Csr.{csr_read, csr_write, machine_only, supervisor_rw, read_only}
use oxalyn.Sim.Exec.Insn.{Insn}
use oxalyn.Sim.Exec.Alu.{
  exec_add, exec_sub, exec_mul, exec_alu, exec_imm, signed_quotient, signed_remainder, overflows,
  guarded,
}
use oxalyn.Sim.Exec.Memory.{
  exec_load, exec_store, exec_loadb, exec_storeb, address, byte_address, store_gpu_byte,
  is_gpu_mmio_word, wasm_gpu_mmio_byte,
}
use oxalyn.Sim.Exec.Branch.{exec_jz, exec_jnz, jump}
use oxalyn.Sim.Exec.Io.{exec_out, exec_in}
use oxalyn.Sim.Exec.System.{exec_ecall, exec_eret, exec_csrw, exec_csrr, exec_wfi, machine_mode}
use oxalyn.Sim.Exec.Table.{Handler}

-- What an unprivileged program must leave alone.
pub record Rights : Type 0 where
  pub priv : ℕ
  pub csr : ℕ → ℕ
  pub io_ports : ℕ → ℕ
  pub trng_lfsr : ℕ
  pub uart : Uart
  pub gpio_input : ℕ
  pub gpio_events : List GpioEvent
  pub waiting_for_interrupt : Bool

abbrev pub rights : Cpu → Rights
rights c = record {
  priv = c.priv;
  csr = c.csr;
  io_ports = c.io_ports;
  trng_lfsr = c.trng_lfsr;
  uart = c.uart;
  gpio_input = c.gpio_input;
  gpio_events = c.gpio_events;
  waiting_for_interrupt = c.waiting_for_interrupt;
}

-- An instruction has trapped; CSRR then writes a register too.
abbrev pub Trapped : Cpu → Cpu → Type 0
Trapped c c' = (cause : ℕ) × (regs : ℕ → ℕ) × (c' ≡ record (trap c cause) { reg = regs })

abbrev pub Confined : Cpu → Option Cpu → Type 0
Confined c none = Unit {0}
Confined c (some c') = (rights c' ≡ rights c) ⊎ Trapped c c'

abbrev pub Confines : Handler → Type 0
Confines h = (i : Insn) (c : Cpu) → c.priv ≡ Priv.user → Confined c (h i c)

pub exec_alu-Confines : (f : ℕ → ℕ → ℕ) → Confines (exec_alu f)
unfolding exec_alu write_reg
exec_alu-Confines f i c u = inl refl

pub exec_imm-Confines : (f : ℕ → ℕ → ℕ) → Confines (exec_imm f)
unfolding exec_imm write_reg
exec_imm-Confines f i c u = inl refl

pub exec_add-Confines : Confines exec_add
unfolding exec_add write_reg
exec_add-Confines i c u = inl refl

pub exec_sub-Confines : Confines exec_sub
unfolding exec_sub write_reg
exec_sub-Confines i c u = inl refl

pub exec_mul-Confines : Confines exec_mul
unfolding exec_mul write_reg
exec_mul-Confines i c u = inl refl

pub guarded-Confines : (h : Handler) → Confines h → Confines (guarded h)
guarded-Confines h k i c u = elim (Bool-cases (c.reg i.fb == 0)) [
  | inl e ↦ rw e (inr (Cause.div_zero, (trap c Cause.div_zero).reg, refl))
  | inr e ↦ rw e (k i c u)
]

pub signed_quotient-Confines : Confines signed_quotient
unfolding signed_quotient write_reg
signed_quotient-Confines i c u = elim (Bool-cases (overflows (c.reg i.fa) (c.reg i.fb))) [
  | inl e ↦ rw e tt
  | inr e ↦ rw e (inl refl)
]

pub signed_remainder-Confines : Confines signed_remainder
unfolding signed_remainder write_reg
signed_remainder-Confines i c u = elim (Bool-cases (overflows (c.reg i.fa) (c.reg i.fb))) [
  | inl e ↦ rw e tt
  | inr e ↦ rw e (inl refl)
]

pub jump_if-Confines :
    (b : Bool) (i : Insn) (c : Cpu) → rights (if b then jump i c else c) ≡ rights c
unfolding jump
jump_if-Confines true i c = refl
jump_if-Confines false i c = refl

pub exec_jz-Confines : Confines exec_jz
unfolding exec_jz
exec_jz-Confines i c u = inl (jump_if-Confines (c.reg i.fd == 0) i c)

pub exec_jnz-Confines : Confines exec_jnz
unfolding exec_jnz
exec_jnz-Confines i c u = elim (Bool-cases (c.reg i.fd == 0)) [
  | inl e ↦ rw e (inl refl)
  | inr e ↦ rw e (inl (unfold jump in refl))
]

pub exec_load-Confines : Confines exec_load
unfolding exec_load write_reg gpu_read_word
exec_load-Confines i c u = elim (Bool-cases (i.fd == 0)) [
  | inl e ↦ rw e (inl refl)
  | inr e ↦ elim (Bool-cases (is_gpu_mmio_word (address i c % 2 ^ 16))) [
    | inl g ↦ rw (e, g) (inl refl)
    | inr g ↦ rw (e, g) (inl refl)
  ]
]

pub exec_store-Confines : Confines exec_store
unfolding exec_store gpu_write_word
exec_store-Confines i c u = elim (Bool-cases (is_gpu_mmio_word (address i c % 2 ^ 16))) [
  | inl g ↦ rw g (inl refl)
  | inr g ↦ rw g (inl refl)
]

pub exec_loadb-Confines : Confines exec_loadb
unfolding exec_loadb write_reg gpu_read_word
exec_loadb-Confines i c u = elim (Bool-cases (i.fd == 0)) [
  | inl e ↦ rw e (inl refl)
  | inr e ↦ elim (Bool-cases (wasm_gpu_mmio_byte (byte_address i c))) [
    | inl g ↦ rw (e, g) (inl refl)
    | inr g ↦ rw (e, g) (inl refl)
  ]
]

store_gpu_byte-rights :
    (port offset b : ℕ) (c : Cpu) → rights (store_gpu_byte port offset b c) ≡ rights c
unfolding store_gpu_byte gpu_read_word gpu_write_word
store_gpu_byte-rights port offset b c = elim (Bool-cases (offset == 0)) [
  | inl e ↦ elim (Bool-cases (offset == 7)) [ inl f ↦ rw (e, f) | inr f ↦ rw (e, f) ]
  | inr e ↦ elim (Bool-cases (offset == 7)) [ inl f ↦ rw (e, f) | inr f ↦ rw (e, f) ]
]

pub exec_storeb-Confines : Confines exec_storeb
unfolding exec_storeb
exec_storeb-Confines i c u = elim (Bool-cases (wasm_gpu_mmio_byte (byte_address i c))) [
  | inl g ↦ rw g (inl (store_gpu_byte-rights _ _ _ c))
  | inr g ↦ rw g (inl refl)
]

-- What is refused in user mode.
pub user_traps : (c : Cpu) (cause : ℕ) → Trapped c (trap c cause)
user_traps c cause = (cause, (trap c cause).reg, refl)

is_user : (c : Cpu) → c.priv ≡ Priv.user → (c.priv == Priv.user) ≡ true
is_user c u = ground arith

not_machine : (c : Cpu) → c.priv ≡ Priv.user → (c.priv == Priv.machine) ≡ false
not_machine c u = ground arith

pub exec_out-Confines : Confines exec_out
unfolding exec_out
exec_out-Confines i c u = rw (is_user c u) (inr (user_traps c Cause.io_priv))

pub exec_in-Confines : Confines exec_in
unfolding exec_in
exec_in-Confines i c u = rw (is_user c u) (inr (user_traps c Cause.io_priv))

pub exec_ecall-Confines : Confines exec_ecall
unfolding exec_ecall ecall
exec_ecall-Confines i c u = rw (is_user c u) (inr (user_traps c Cause.ecall_u))

pub exec_eret-Confines : Confines exec_eret
unfolding exec_eret eret
exec_eret-Confines i c u = rw (is_user c u) (inr (user_traps c Cause.eret_priv))

pub exec_wfi-Confines : Confines exec_wfi
unfolding exec_wfi
exec_wfi-Confines i c u = rw (is_user c u) (inr (user_traps c Cause.csr_priv))

pub machine_mode-Confines : (h : Handler) → Confines (machine_mode h)
machine_mode-Confines h i c u = rw (not_machine c u) (inr (user_traps c Cause.csr_priv))

-- The access table leaves the unprivileged reads and the writes without effect, or traps.
csr_write-user :
    (c : Cpu) (idx v : ℕ)
    → c.priv ≡ Priv.user
    → (csr_write c idx v ≡ c) ⊎ (csr_write c idx v ≡ trap c Cause.csr_priv)
unfolding csr_write machine_only supervisor_rw read_only
csr_write-user c idx v u = ground arith

pub exec_csrw-Confines : Confines exec_csrw
unfolding exec_csrw
exec_csrw-Confines i c u = elim (csr_write-user c (i.imm % 64) (c.reg i.fd) u) [
  | inl e ↦ rw e (inl refl)
  | inr e ↦ rw e (inr (user_traps c Cause.csr_priv))
]

csr_read-user :
    (c : Cpu) (idx : ℕ)
    → c.priv ≡ Priv.user
    → ((csr_read c idx).1 ≡ c) ⊎ ((csr_read c idx).1 ≡ trap c Cause.csr_priv)
unfolding csr_read
csr_read-user c idx u = ground arith

pub exec_csrr-Confines : Confines exec_csrr
unfolding exec_csrr write_reg
exec_csrr-Confines i c u = elim (csr_read-user c (i.imm % 64) u) [
  | inl e ↦ inl (ap rights e)
  | inr e ↦ inr (Cause.csr_priv, _, ap (λ x. write_reg x i.fd (csr_read c (i.imm % 64)).0) e)
]
