-- ===== src/Sim/Pending.antt =====
-- The bits of MIE and MIP (simulator/sim.c).
use oxalyn.Base.{ℕ}

abbrev pub timer : ℕ
timer = 1

abbrev pub ext : ℕ
ext = 2

abbrev pub uart_rx : ℕ
uart_rx = 4

abbrev pub uart_tx : ℕ
uart_tx = 8
