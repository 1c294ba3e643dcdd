-- ===== src/Sim/Priv.antt =====
-- The privilege levels of simulator/sim.c: the smaller the number, the more is allowed.
use oxalyn.Base.{ℕ}

abbrev pub machine : ℕ
machine = 0

abbrev pub supervisor : ℕ
supervisor = 1

abbrev pub user : ℕ
user = 2
