-- ===== src/Kernel/Syscalls.antt =====
-- The system calls of kernel/kernel.c that act on the process table, and its signals. A register of
-- a process is a `uint64_t`; a status is given as one. A result that is always 0 is left out.
pub mod Running
use oxalyn.Base.{
  ℕ, zero, suc, ◌+◌, ◌/◌, ◌^◌, Bool, true, false, not, ◌&&◌, ◌||◌, Option, none, some, bit_and,
  bit_or, ltb, leb, ◌==◌, if◌then◌else◌, has, not32, u32, add32, update,
}
use oxalyn.Base.Int.{ℤ, pos, negsuc}
use oxalyn.Kernel.Process.{
  Process, ProcState, free, ready, blocked, zombie, max_processes, timer_quantum,
}
use oxalyn.Kernel.GuiGuard.{gui_guard_reset}
use oxalyn.Kernel.Scheduler.{Sched, Table, is_free, is_blocked, set_state, first_free, scheduler}

abbrev pub put : Sched → ℕ → Process → Sched
put s i p = record s { table = update s.table i p }

abbrev pub current : Sched → Process
current s = s.table s.current_pid

-- The child of sys_fork: a copy of the process, ready, which reads 0 as the result.
abbrev pub child : Sched → Process
child s = record (current s) {
  state = ready;
  parent_pid = s.current_pid;
  ticks_remaining = timer_quantum;
  regs = update (current s).regs 7 0;
}

abbrev pub fork_to : Sched → Option ℕ → Option ℕ × Sched
fork_to s none = (none, s)
fork_to s (some pid) =
    let s' = put s pid (child s) in
    let parent = record (s'.table s.current_pid) {
      regs = update (s'.table s.current_pid).regs 7 pid;
    } in
    let s'' = put s' s.current_pid parent in
    (some pid, put s'' pid (record (s''.table pid) { regs = update (s''.table pid).regs 7 0 }))

unfoldable pub sys_fork : Sched → Option ℕ × Sched
unfolding first_free
sys_fork s = fork_to s (first_free max_processes 0 s.table)

unfoldable pub sys_exec : Sched → ℕ → Sched
unfolding gui_guard_reset
sys_exec s addr =
    put s s.current_pid (gui_guard_reset (record (current s) { regs = λ r. 0; pc = u32 addr }))

unfoldable pub sys_exit : Sched → ℕ → Sched
unfolding scheduler
sys_exit s status = scheduler (
    put s s.current_pid
      (record (current s) { state = zombie; regs = update (current s).regs 7 status }))

unfoldable pub sys_sleep : Sched → ℕ → Sched
unfolding scheduler
sys_sleep s ms = scheduler (
    put s s.current_pid
      (record (current s) { ticks_remaining = add32 (ms / timer_quantum) 1; state = blocked }))

unfoldable pub sys_yield : Sched → Sched
unfolding scheduler
sys_yield s = scheduler (put s s.current_pid (record (current s) { ticks_remaining = 0 }))

abbrev pub spawn_at : ℕ → Option ℕ × Sched → Option ℕ × Sched
spawn_at addr (none, s) = (none, s)
spawn_at addr (some pid, s) = (some pid, put s pid (record (s.table pid) { pc = u32 addr }))

unfoldable pub sys_spawn : Sched → ℕ → Option ℕ × Sched
unfolding sys_fork
sys_spawn s addr = spawn_at addr (sys_fork s)

-- signal_deliver for a process and a signal that exist: the bit is set.
unfoldable pub set_signal : Sched → ℕ → ℕ → Sched
set_signal s pid sig =
    let p = s.table pid in
    if not (ltb pid max_processes) || is_free p.state || sig == 0 || ltb 31 sig
    then s
    else put s pid (record p { signal_mask = bit_or p.signal_mask (2 ^ sig) })

-- A negative process or signal number names nothing.
unfoldable pub signal_deliver : Sched → ℤ → ℤ → Sched
unfolding set_signal
signal_deliver s (pos pid) (pos sig) = set_signal s pid sig
signal_deliver s (pos pid) (negsuc n) = s
signal_deliver s (negsuc n) sig = s

-- The lowest of the `left` signals from `sig` on that is pending.
unfoldable pub first_signal : ℕ → ℕ → ℕ → Option ℕ
first_signal zero sig mask = none
first_signal (suc left) sig mask =
    let rest = first_signal left (sig + 1) mask in if has mask (2 ^ sig) then some sig else rest

-- What a signal does once its bit is cleared. SIGKILL is 9, SIGINT 2, SIGQUIT 3, SIGTERM 15 and
-- SIGALRM 14.
unfoldable pub act_on : Sched → ℕ → ℕ → Sched
unfolding scheduler
act_on s pid sig =
    let freed = record s { table = set_state s.table pid free } in
    let ended = if s.current_pid == pid then scheduler freed else freed in
    let zombied = record s { table = set_state s.table pid zombie } in
    if sig == 9
    then ended
    else if sig == 15 || sig == 2 || sig == 3
    then if s.current_pid == pid then scheduler freed else zombied
    else if sig == 14 && is_blocked (s.table pid).state
    then record s { table = set_state s.table pid ready }
    else s

abbrev pub consume : Sched → ℕ → Option ℕ → Sched
unfolding act_on
consume s pid none = s
consume s pid (some sig) =
    let p = s.table pid in
    act_on (put s pid (record p { signal_mask = bit_and p.signal_mask (not32 (2 ^ sig)) })) pid sig

unfoldable pub signal_check : Sched → ℕ → Sched
unfolding consume first_signal
signal_check s pid =
    let p = s.table pid in
    let handled = consume s pid (first_signal 31 1 p.signal_mask) in
    if not (ltb pid max_processes) || is_free p.state || p.signal_mask == 0 then s else handled
