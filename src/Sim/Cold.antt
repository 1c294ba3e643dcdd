-- ===== src/Sim/Cold.antt =====
-- A machine for the tests.
use oxalyn.Base.{false, true, none, []}
use oxalyn.Sim.State.{Cpu}

-- A machine before its reset: no device has an event in store, and no GPU is attached.
abbrev pub cold : Cpu
cold = record {
  reg = λ i. 0;
  mem = λ i. 0;
  pc = 0;
  halted = false;
  cycles = 0;
  io_ports = λ i. 0;
  flags = 0;
  waiting_for_interrupt = false;
  irq_ext_at_cycle = none;
  gpio_input = 0;
  gpio_events = [];
  eeprom = λ i. 0;
  eeprom_dirty = false;
  priv = 0;
  csr = λ i. 0;
  trng_lfsr = 0;
  resilient = false;
  uart = record {
    rx_at_cycle = none;
    rx_event_value = 0;
    rx_pending = false;
    tx_ready = true;
    tx_busy_cycles = 0;
    stdin = [];
    stdout = [];
  };
  pipe = record { insn = 0; valid = false; flush = false };
  health = record {
    total_traps = 0;
    illegal_recovered = 0;
    mpu_recovered = 0;
    div_recovered = 0;
    watchdog_resets = 0;
    interrupts = 0;
  };
  watchdog = record { limit = 0; stall_count = 0; last_sig = 0 };
  gpu = record { ready = false; accesses = []; answer = λ l p. 0; mmio_shadow = λ i. 0 };
}
