-- ===== src/Sim/Csr/Laws.antt =====
-- The access table of the control registers, and what a write leaves for a read.
use oxalyn.Base.{
  ℕ, ◌≤◌, ◌<◌, ◌≡◌, ◌≢◌, refl, ◌∙◌, sym, false, ◌||◌, leb, ◌==◌, if◌then◌else◌, arith, update,
}
use oxalyn.Sim.Index
use oxalyn.Sim.Priv
use oxalyn.Sim.Cause
use oxalyn.Sim.State.{Cpu, set_csr}
use oxalyn.Sim.Trap.{trap}
use oxalyn.Sim.Csr.{machine_only, supervisor_rw, read_only, csr_value, csr_read, csr_write}

-- The lowest privilege that may read a register: supervisor for SEPC, STVEC, SATP, SIE and SCAUSE.
abbrev pub lowest : ℕ → ℕ
lowest idx =
    if idx == Index.sepc
      || idx == Index.stvec
      || idx == Index.satp
      || idx == Index.sie
      || idx == Index.scause
    then Priv.supervisor
    else Priv.machine

-- A read of a control register gives its value and changes nothing where the privilege is at
-- least the one in the access table, and otherwise gives 0 and traps. The privilege is one of
-- the three, and the register exists.
pub csr_read_table :
    (c : Cpu) (idx : ℕ)
    → idx < Index.count
    → c.priv ≤ Priv.user
    → csr_read c idx
      ≡ (if leb c.priv (lowest idx) then (csr_value c idx, c) else (0, trap c Cause.csr_priv))
unfolding csr_read machine_only supervisor_rw
csr_read_table c idx h p = ground arith

csr_read-machine :
    (c : Cpu) (idx : ℕ)
    → c.priv ≡ Priv.machine
    → (csr_read c idx).0 ≡ (if leb Index.count idx then 0 else csr_value c idx)
unfolding csr_read
csr_read-machine c idx p = ground arith

csr_write-machine :
    (c : Cpu) (idx val : ℕ)
    → idx < Index.count
    → c.priv ≡ Priv.machine
    → read_only idx ≡ false
    → csr_write c idx val ≡ set_csr c idx val
unfolding csr_write
csr_write-machine c idx val h p r = ground arith

csr_value_self :
    (c : Cpu) (idx val : ℕ) → read_only idx ≡ false → csr_value (set_csr c idx val) idx ≡ val
unfolding csr_value read_only set_csr update
csr_value_self c idx val r = ground arith

csr_value_other :
    (c : Cpu) (idx val other : ℕ)
    → other ≢ idx
    → csr_value (set_csr c idx val) other ≡ csr_value c other
unfolding csr_value set_csr update
csr_value_other c idx val other n = ground arith

-- A value written to a register that can be written, in machine mode, is what the next read
-- gives, and no other register reads differently.
pub csr_read-csr_write :
    (c : Cpu) (idx val : ℕ)
    → idx < Index.count
    → c.priv ≡ Priv.machine
    → read_only idx ≡ false
    → ((csr_read (csr_write c idx val) idx).0 ≡ val)
      × ((other : ℕ)
          → other ≢ idx
          → (csr_read (csr_write c idx val) other).0 ≡ (csr_read c other).0)
csr_read-csr_write c idx val h p r =
    let w = set_csr c idx val in
    let low : c.priv ≡ w.priv = unfold set_csr in refl in
    rw (csr_write-machine c idx val h p r) (
      ground (arith, csr_read-machine w idx (sym low ∙ p), csr_value_self c idx val r),
      λ other n. ground (
        arith,
        csr_read-machine w other (sym low ∙ p),
        csr_read-machine c other p,
        csr_value_other c idx val other n,
      ),
    )
