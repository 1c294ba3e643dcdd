-- ===== src/Sim/Index.antt =====
-- The CSR indices of simulator/sim.c. The MPU registers are `mpu_base n`, `mpu_mask n` and `mpu_perm n`.
use oxalyn.Base.{ℕ, ◌+◌}

abbrev pub priv : ℕ
priv = 0

abbrev pub mepc : ℕ
mepc = 1

abbrev pub mcause : ℕ
mcause = 2

abbrev pub mtvec : ℕ
mtvec = 3

abbrev pub mstatus : ℕ
mstatus = 4

abbrev pub sepc : ℕ
sepc = 5

abbrev pub stvec : ℕ
stvec = 6

abbrev pub satp : ℕ
satp = 7

abbrev pub mie : ℕ
mie = 32

abbrev pub mip : ℕ
mip = 33

abbrev pub mtimecmp : ℕ
mtimecmp = 34

abbrev pub mtime : ℕ
mtime = 35

abbrev pub mtime_hi : ℕ
mtime_hi = 36

abbrev pub mideleg : ℕ
mideleg = 37

abbrev pub medeleg : ℕ
medeleg = 38

abbrev pub sie : ℕ
sie = 39

abbrev pub scause : ℕ
scause = 40

abbrev pub count : ℕ
count = 41

abbrev pub mpu_base : ℕ → ℕ
mpu_base n = 8 + n

abbrev pub mpu_mask : ℕ → ℕ
mpu_mask n = 16 + n

abbrev pub mpu_perm : ℕ → ℕ
mpu_perm n = 24 + n
