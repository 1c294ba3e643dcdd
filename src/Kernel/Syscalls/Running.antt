-- ===== src/Kernel/Syscalls/Running.antt =====
-- The invariant of the scheduler under the system calls and the signals.
use oxalyn.Base.{
  ℕ, refl, List, [], ◌∷◌, not, ◌&&◌, ◌||◌, ◌==◌, ltb, inl, inr, Bool-cases, Option, none, some,
  update, u32, bit_or, ◌^◌,
}
use oxalyn.Base.Int.{ℤ, pos, negsuc}
use oxalyn.Kernel.Process.{free, ready, zombie, max_processes}
use oxalyn.Kernel.GuiGuard.{gui_guard_reset, gui_guard_init}
use oxalyn.Kernel.Scheduler.{Sched, is_free, is_blocked, first_free}
use oxalyn.Kernel.Scheduler.Running.{OneRuns, put-OneRuns, same-OneRuns, scheduler-OneRuns}
use oxalyn.Kernel.Syscalls.{
  put, child, fork_to, sys_fork, sys_exec, sys_exit, sys_sleep, sys_yield, spawn_at, sys_spawn,
  signal_deliver, set_signal, signal_check, first_signal, consume, act_on,
}

fork_to-OneRuns : (s : Sched) (o : Option ℕ) → OneRuns s → OneRuns (fork_to s o).1
fork_to-OneRuns s none v = v
fork_to-OneRuns s (some pid) v =
    let s1 = put s pid (child s) in
    let v1 = put-OneRuns s pid (child s) refl v in
    let p2 = record (s1.table s.current_pid) {
      regs = update (s1.table s.current_pid).regs 7 pid;
    } in
    let s2 = put s1 s.current_pid p2 in
    let v2 = same-OneRuns s1 s.current_pid p2 refl v1 in
    same-OneRuns s2 pid (record (s2.table pid) { regs = update (s2.table pid).regs 7 0 }) refl v2

spawn_at-OneRuns : (addr : ℕ) (r : Option ℕ × Sched) → OneRuns r.1 → OneRuns (spawn_at addr r).1
spawn_at-OneRuns addr (none, s) v = v
spawn_at-OneRuns addr (some pid, s) v =
    same-OneRuns s pid (record (s.table pid) { pc = u32 addr }) refl v

set_signal-OneRuns : (s : Sched) (pid sig : ℕ) → OneRuns s → OneRuns (set_signal s pid sig)
unfolding set_signal
set_signal-OneRuns s pid sig v =
    elim (Bool-cases
      (not (ltb pid max_processes) || is_free (s.table pid).state || sig == 0 || ltb 31 sig)) [
        | inl e ↦ simp e v
        | inr e ↦ simp e (
            same-OneRuns s pid
              (record (s.table pid) { signal_mask = bit_or (s.table pid).signal_mask (2 ^ sig) })
              refl v)
      ]

act_on-OneRuns : (s : Sched) (pid sig : ℕ) → OneRuns s → OneRuns (act_on s pid sig)
unfolding act_on
act_on-OneRuns s pid sig v =
    let freed = put-OneRuns s pid (record (s.table pid) { state = free }) refl v in
    let zombied = put-OneRuns s pid (record (s.table pid) { state = zombie }) refl v in
    let woken = put-OneRuns s pid (record (s.table pid) { state = ready }) refl v in
    let here = Bool-cases (s.current_pid == pid) in
    elim (Bool-cases (sig == 9)) [
      | inl kill ↦ elim here [
        | inl e ↦ simp (kill, e) (scheduler-OneRuns _ freed)
        | inr e ↦ simp (kill, e) freed
      ]
      | inr k ↦ elim (Bool-cases (sig == 15 || sig == 2 || sig == 3)) [
        | inl term ↦ elim here [
          | inl e ↦ simp (k, term, e) (scheduler-OneRuns _ freed)
          | inr e ↦ simp (k, term, e) zombied
        ]
        | inr t ↦ elim (Bool-cases (sig == 14 && is_blocked (s.table pid).state)) [
          | inl alarm ↦ simp (k, t, alarm) woken
          | inr a ↦ simp (k, t, a) v
        ]
      ]
    ]

consume-OneRuns : (s : Sched) (pid : ℕ) (o : Option ℕ) → OneRuns s → OneRuns (consume s pid o)
unfolding consume
consume-OneRuns s pid none v = v
consume-OneRuns s pid (some sig) v = act_on-OneRuns _ pid sig (same-OneRuns s pid _ refl v)

signal_check-OneRuns : (s : Sched) (pid : ℕ) → OneRuns s → OneRuns (signal_check s pid)
unfolding signal_check
signal_check-OneRuns s pid v =
    elim (Bool-cases (
      not (ltb pid max_processes)
      || is_free (s.table pid).state
      || (s.table pid).signal_mask == 0)) [
        | inl e ↦ simp e v
        | inr e ↦ simp e (consume-OneRuns s pid (first_signal 31 1 (s.table pid).signal_mask) v)
      ]

-- A system call of the current process, a signal sent, or the look at its signals in a tick.
pub data Call : Type 0 where
  fork yield checks : Call
  exec exit sleep spawn : ℕ → Call
  kill : ℤ → ℤ → Call

unfoldable pub calls : Sched → Call → Sched
calls s fork = (sys_fork s).1
calls s yield = sys_yield s
calls s checks = signal_check s s.current_pid
calls s (exec addr) = sys_exec s addr
calls s (exit status) = sys_exit s status
calls s (sleep ms) = sys_sleep s ms
calls s (spawn addr) = (sys_spawn s addr).1
calls s (kill pid sig) = signal_deliver s pid sig

unfoldable pub run : Sched → List Call → Sched
unfolding calls
run s [] = s
run s (c ∷ cs) = run (calls s c) cs

calls-OneRuns : (s : Sched) (c : Call) → OneRuns s → OneRuns (calls s c)
unfolding calls sys_fork sys_yield sys_exec sys_exit sys_sleep sys_spawn signal_deliver
    gui_guard_reset gui_guard_init
calls-OneRuns s fork v = fork_to-OneRuns s (first_free max_processes 0 s.table) v
calls-OneRuns s yield v = scheduler-OneRuns _ (same-OneRuns s s.current_pid _ refl v)
calls-OneRuns s checks v = signal_check-OneRuns s s.current_pid v
calls-OneRuns s (exec addr) v = same-OneRuns s s.current_pid _ refl v
calls-OneRuns s (exit status) v = scheduler-OneRuns _ (put-OneRuns s s.current_pid _ refl v)
calls-OneRuns s (sleep ms) v = scheduler-OneRuns _ (put-OneRuns s s.current_pid _ refl v)
calls-OneRuns s (spawn addr) v =
    spawn_at-OneRuns addr (sys_fork s) (fork_to-OneRuns s (first_free max_processes 0 s.table) v)
calls-OneRuns s (kill (pos pid) (pos sig)) v = set_signal-OneRuns s pid sig v
calls-OneRuns s (kill (pos pid) (negsuc n)) v = v
calls-OneRuns s (kill (negsuc n) sig) v = v

-- From a table in which only the current process runs, whatever system calls are made, signals
-- sent and signals acted on, in any order: only the current process is marked as running, and it
-- is in the table.
pub run-OneRuns : (s : Sched) (cs : List Call) → OneRuns s → OneRuns (run s cs)
unfolding run
run-OneRuns s [] v = v
run-OneRuns s (c ∷ cs) v = run-OneRuns (calls s c) cs (calls-OneRuns s c v)
