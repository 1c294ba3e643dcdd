-- ===== src/Sim/State.antt =====
-- The static variables of simulator/sim.c as one record. The arrays `reg`, `mem`, `io_ports`,
-- `eeprom` and `csr` are functions of the index. Variables that are only 0 or 1 are Booleans, and
-- a cycle number of -1 (no event) is `none`. What is printed for people is left out; the bytes
-- that the program sends to its UART are kept.
use oxalyn.Base.{ℕ, Bool, true, false, List, [], ◌∷◌, Option, update, ◌==◌, if◌then◌else◌}
use oxalyn.Sim.Priv

abbrev pub mem_size : ℕ
mem_size = 65536

abbrev pub eeprom_size : ℕ
eeprom_size = 4096

pub record GpioEvent : Type 0 where
  pub cycle : Option ℕ
  pub pin : ℕ
  pub val : ℕ

-- One access of the machine to a port of the GPU.
pub data GpuAccess : Type 0 where
  gpu_read : ℕ → GpuAccess
  gpu_write : ℕ → ℕ → GpuAccess

-- The GPU simulator seen from the CPU: a device whose answer depends on the accesses before.
pub record Gpu : Type 0 where
  pub ready : Bool
  pub accesses : List GpuAccess
  pub answer : List GpuAccess → ℕ → ℕ
  pub mmio_shadow : ℕ → ℕ

pub record Uart : Type 0 where
  pub rx_at_cycle : Option ℕ
  pub rx_event_value : ℕ
  pub rx_pending : Bool
  pub tx_ready : Bool
  pub tx_busy_cycles : ℕ
  pub stdin : List ℕ
  pub stdout : List ℕ

-- The counters of the resilience report.
pub record Health : Type 0 where
  pub total_traps : ℕ
  pub illegal_recovered : ℕ
  pub mpu_recovered : ℕ
  pub div_recovered : ℕ
  pub watchdog_resets : ℕ
  pub interrupts : ℕ

pub record Watchdog : Type 0 where
  pub limit : ℕ
  pub stall_count : ℕ
  pub last_sig : ℕ

pub record Pipe : Type 0 where
  pub insn : ℕ
  pub valid : Bool
  pub flush : Bool

pub record Cpu : Type 0 where
  pub reg : ℕ → ℕ
  pub mem : ℕ → ℕ
  pub pc : ℕ
  pub halted : Bool
  pub cycles : ℕ
  pub io_ports : ℕ → ℕ
  pub flags : ℕ
  pub waiting_for_interrupt : Bool
  pub irq_ext_at_cycle : Option ℕ
  pub gpio_input : ℕ
  pub gpio_events : List GpioEvent
  pub eeprom : ℕ → ℕ
  pub eeprom_dirty : Bool
  pub priv : ℕ
  pub csr : ℕ → ℕ
  pub trng_lfsr : ℕ
  pub resilient : Bool
  pub uart : Uart
  pub pipe : Pipe
  pub health : Health
  pub watchdog : Watchdog
  pub gpu : Gpu

-- `if (fd != 0) reg[fd] = v;`
unfoldable pub write_reg : Cpu → ℕ → ℕ → Cpu
write_reg c fd v = record c { reg = if fd == 0 then c.reg else update c.reg fd v }

-- `csr[idx] = v;`
unfoldable pub set_csr : Cpu → ℕ → ℕ → Cpu
set_csr c idx v = record c { csr = update c.csr idx v }

-- `pipe_flush = 1;`
unfoldable pub flush : Cpu → Cpu
flush c = record c { pipe = record c.pipe { flush = true } }

-- gpu_mmio_read_word and gpu_mmio_write_word: without a GPU the answer is 0, and nothing happens.
unfoldable pub log_access : Gpu → GpuAccess → Gpu
log_access g a = if g.ready then record g { accesses = a ∷ g.accesses } else g

unfoldable pub gpu_read_word : Cpu → ℕ → ℕ × Cpu
unfolding log_access
gpu_read_word c port = (
  if c.gpu.ready then c.gpu.answer c.gpu.accesses port else 0,
  record c { gpu = log_access c.gpu (gpu_read port) },
)

unfoldable pub gpu_write_word : Cpu → ℕ → ℕ → Cpu
unfolding log_access
gpu_write_word c port v = record c { gpu = log_access c.gpu (gpu_write port v) }

-- cpu_reset, over the state in which the variables that it leaves alone stand.
unfoldable pub cpu_reset : Cpu → Cpu
cpu_reset c = record c {
  reg = λ i. 0;
  mem = λ i. 0;
  io_ports = λ i. 0;
  csr = λ i. 0;
  pc = 0;
  halted = false;
  cycles = 0;
  flags = 0;
  priv = Priv.machine;
  trng_lfsr = 0xDEADBEEFDEADBEEF;
  waiting_for_interrupt = false;
  uart = record c.uart { rx_pending = false; tx_ready = true; tx_busy_cycles = 0 };
  gpio_input = 0;
  gpio_events = [];
  pipe = record { insn = 0; valid = false; flush = false };
  watchdog = record c.watchdog { stall_count = 0; last_sig = 0xFFFFFFFFFFFFFFFF };
}
