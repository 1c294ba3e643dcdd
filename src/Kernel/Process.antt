-- ===== src/Kernel/Process.antt =====
-- The process table of kernel/kernel.h, a function of the process number.
use oxalyn.Base.{ℕ}

abbrev pub max_processes : ℕ
max_processes = 8

abbrev pub timer_quantum : ℕ
timer_quantum = 10

-- PROC_FREE to PROC_ZOMBIE.
pub data ProcState : Type 0 where
  free ready running blocked zombie : ProcState

-- `entry_fn` is a code address, 0 for NULL.
pub record Process : Type 0 where
  pub regs : ℕ → ℕ
  pub pc : ℕ
  pub state : ProcState
  pub priority : ℕ
  pub ticks_remaining : ℕ
  pub parent_pid : ℕ
  pub signal_mask : ℕ
  pub stack_base : ℕ
  pub perf_cycles : ℕ
  pub gui_enabled : ℕ
  pub gui_faults : ℕ
  pub gui_ops : ℕ
  pub gui_pixels : ℕ
  pub entry_fn : ℕ
  pub affinity_mask : ℕ
  pub last_cpu : ℕ
  pub cpu_ticks : ℕ
