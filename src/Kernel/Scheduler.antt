-- ===== src/Kernel/Scheduler.antt =====
-- kernel/scheduler.c: the choice of the next process and the life of a process. `current_pid` is
-- only ever set to a process number, so it is a natural number. What an entry function does
-- (process_run_now) is a parameter.
pub mod Choice
pub mod Running
use oxalyn.Base.{
  ℕ, zero, suc, ◌+◌, ◌-◌, ◌*◌, ◌^◌, Bool, true, false, not, ◌&&◌, ◌||◌, Option, none, some, ltb,
  ◌==◌, if◌then◌else◌, update, u32, add32,
}
use oxalyn.Base.Int.{ℤ, pos, negsuc, signed32, ltb_ℤ}
use oxalyn.Kernel.Process.{
  Process, ProcState, free, ready, running, blocked, zombie, max_processes, timer_quantum,
}
use oxalyn.Kernel.GuiGuard.{gui_guard_init}

abbrev pub is_free : ProcState → Bool
is_free free = true
is_free ready = false
is_free running = false
is_free blocked = false
is_free zombie = false

abbrev pub is_ready : ProcState → Bool
is_ready free = false
is_ready ready = true
is_ready running = false
is_ready blocked = false
is_ready zombie = false

abbrev pub is_running : ProcState → Bool
is_running free = false
is_running ready = false
is_running running = true
is_running blocked = false
is_running zombie = false

abbrev pub is_blocked : ProcState → Bool
is_blocked free = false
is_blocked ready = false
is_blocked running = false
is_blocked blocked = true
is_blocked zombie = false

abbrev pub Table : Type 0
Table = ℕ → Process

pub record Sched : Type 0 where
  pub table : Table
  pub current_pid : ℕ
  pub context_switches : ℕ

abbrev pub set_state : Table → ℕ → ProcState → Table
set_state t i st = update t i (record (t i) { state = st })

abbrev stack_of : ℕ → ℕ
stack_of i = 0x4000 + i * 0x400

unfoldable pub scheduler_init : Sched → Sched
unfolding gui_guard_init
scheduler_init s = record s {
  table = λ i.
      let p = s.table i in
      if ltb i max_processes
      then gui_guard_init (record p { state = free; priority = 4; stack_base = stack_of i })
      else p;
}

-- The loop for the READY process of the highest priority: its number and `best_priority`.
unfoldable pub pick : ℕ → ℕ → Table → ℕ → ℤ → ℕ × ℤ
pick zero i t next best = (next, best)
pick (suc left) i t next best =
    let prio = signed32 (t i).priority in
    let better = is_ready (t i).state && ltb_ℤ best prio in
    pick left (i + 1) t (if better then i else next) (if better then prio else best)

-- The loop that unblocks the first BLOCKED process.
unfoldable pub unblock : ℕ → ℕ → Table → ℕ → Table × ℕ
unblock zero i t next = (t, next)
unblock (suc left) i t next =
    let rest = unblock left (i + 1) t next in
    if is_blocked (t i).state then (set_state t i ready, i) else rest

unfoldable pub context_switch : Sched → ℕ → ℕ → Sched
context_switch s from_pid to_pid =
    let t =
      if ltb from_pid max_processes && is_running (s.table from_pid).state
      then set_state s.table from_pid ready
      else s.table in
    record {
      table = set_state t to_pid running;
      current_pid = to_pid;
      context_switches = add32 s.context_switches 1;
    }

-- What the two loops choose: the table with a process unblocked if there was nothing else.
unfoldable pub choose : Sched → Table × ℕ
unfolding pick unblock
choose s =
    let (next, best) = pick max_processes 0 s.table s.current_pid (negsuc 0) in
    if ltb_ℤ best (pos 0) then unblock max_processes 0 s.table next else (s.table, next)

unfoldable pub scheduler : Sched → Sched
unfolding choose context_switch
scheduler s =
    let (t, next) = choose s in
    let s' = record s { table = t } in
    if next == s.current_pid then s' else context_switch s' s.current_pid next

-- The first of the `left` processes from `i` on that is free.
unfoldable pub first_free : ℕ → ℕ → Table → Option ℕ
first_free zero i t = none
first_free (suc left) i t =
    let rest = first_free left (i + 1) t in if is_free (t i).state then some i else rest

unfoldable pub new_process : ℕ → ℕ → ℕ → Process
unfolding gui_guard_init
new_process pid entry priority = gui_guard_init (record {
  regs = λ r. if r == 31 then stack_of pid else 0;
  pc = u32 entry;
  state = ready;
  priority = u32 priority;
  ticks_remaining = timer_quantum;
  parent_pid = 0;
  signal_mask = 0;
  stack_base = stack_of pid;
  perf_cycles = 0;
  gui_enabled = 0;
  gui_faults = 0;
  gui_ops = 0;
  gui_pixels = 0;
  entry_fn = entry;
  affinity_mask = 0;
  last_cpu = 0;
  cpu_ticks = 0;
})

-- `none` is -1. The priority is given as a `uint32_t`.
unfoldable pub process_create : Sched → ℕ → ℕ → Option ℕ × Sched
unfolding first_free new_process
process_create s entry priority = elim (first_free max_processes 0 s.table) [
  | none ↦ (none, s)
  | some pid ↦ (some pid, record s { table = update s.table pid (new_process pid entry priority) })
]

unfoldable pub process_run_now : (ℕ → Sched → Sched) → Sched → ℕ → Sched
process_run_now run s pid =
    let started : Sched = record {
      table = set_state s.table pid running;
      current_pid = pid;
      context_switches = add32 s.context_switches 1;
    } in
    let ended = run (s.table pid).entry_fn started in
    if not (ltb pid max_processes) || (s.table pid).entry_fn == 0
    then s
    else record ended { table = set_state ended.table pid free }

unfoldable pub process_kill : Sched → ℕ → Sched
process_kill s pid = record s {
  table = if ltb pid max_processes then set_state s.table pid free else s.table;
}
