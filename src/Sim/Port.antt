-- ===== src/Sim/Port.antt =====
-- The I/O ports that the machine itself serves (simulator/sim.c).
use oxalyn.Base.{ℕ}

abbrev pub gpio_dir : ℕ
gpio_dir = 0xF0

abbrev pub gpio_val : ℕ
gpio_val = 0xF1

abbrev pub gpio_int_en : ℕ
gpio_int_en = 0xF2

abbrev pub gpio_int_st : ℕ
gpio_int_st = 0xF3

abbrev pub uart_st : ℕ
uart_st = 0xFD

abbrev pub uart_tx : ℕ
uart_tx = 0xFE

abbrev pub uart_rx : ℕ
uart_rx = 0xFF

abbrev pub gpu_id : ℕ
gpu_id = 0xE0

abbrev pub gpu_last : ℕ
gpu_last = 0xFC

abbrev pub gpu_debug : ℕ
gpu_debug = 0xFF
