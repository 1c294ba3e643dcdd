-- ===== src/Sim/Cause.antt =====
-- The MCAUSE codes of simulator/sim.c. An interrupt's code has bit 63 set.
use oxalyn.Base.{ℕ}

abbrev pub ill_insn : ℕ
ill_insn = 1

abbrev pub mpu_read : ℕ
mpu_read = 2

abbrev pub mpu_write : ℕ
mpu_write = 3

abbrev pub mpu_exec : ℕ
mpu_exec = 4

abbrev pub ecall_u : ℕ
ecall_u = 5

abbrev pub ecall_s : ℕ
ecall_s = 6

abbrev pub csr_priv : ℕ
csr_priv = 7

abbrev pub io_priv : ℕ
io_priv = 8

abbrev pub eret_priv : ℕ
eret_priv = 9

abbrev pub div_zero : ℕ
div_zero = 10

abbrev pub int_timer : ℕ
int_timer = 0x8000000000000001

abbrev pub int_uart_rx : ℕ
int_uart_rx = 0x8000000000000002

abbrev pub int_uart_tx : ℕ
int_uart_tx = 0x8000000000000003

abbrev pub int_ext : ℕ
int_ext = 0x8000000000000004
