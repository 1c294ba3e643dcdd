-- ===== src/Sim/Status.antt =====
-- The bits of MSTATUS (simulator/sim.c). Bits 3 and 4 hold the privilege that MRET returns to.
use oxalyn.Base.{ℕ}

abbrev pub mie : ℕ
mie = 1

abbrev pub mpie : ℕ
mpie = 2

abbrev pub mpp : ℕ
mpp = 0x18

abbrev pub sie : ℕ
sie = 32

abbrev pub spie : ℕ
spie = 64

abbrev pub spp : ℕ
spp = 128
