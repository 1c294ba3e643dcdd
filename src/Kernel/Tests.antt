-- ===== src/Kernel/Tests.antt =====
-- Small process tables and strings, and the theorems of the kernel's other parts at them.
use oxalyn.Base.{
  ◌%◌, min, ◌-◌, ℕ, ◌+◌, false, ◌||◌, ◌&&◌, has, ◌≤◌, ◌<◌, ◌≡◌, ◌↔◌, refl, true, List, [], ◌∷◌,
  some, arith, ◌==◌, if◌then◌else◌,
}
use oxalyn.Base.Int.{ℤ, pos}
use oxalyn.Kernel.Kstring.{kstrcmp, kstrncpy}
use oxalyn.Kernel.Kstring.Laws.{StringAt, kstrcmp_lem, kstrncpy_short}
use oxalyn.Kernel.Process.{Process, ProcState, ready, running, free, max_processes}
use oxalyn.Kernel.GuiGuard.{max_pixels, max_ops}
use oxalyn.Kernel.GuiGuard.Quota.{Draw, request, pixels, spent, IsWithin, spent-le}
use oxalyn.Kernel.Scheduler.{Sched, scheduler}
use oxalyn.Kernel.Scheduler.Choice.{level, is_ready_at, scheduler_highest}
use oxalyn.Kernel.Scheduler.Running.{OneRuns}
use oxalyn.Kernel.Search.{same}
use oxalyn.Kernel.Perms.{Perms, check_permission, perms_register, perm_read}
use oxalyn.Kernel.Perms.Policy.{check_permission-perms_register}
use oxalyn.Kernel.Syslog.{
  SyslogEntry, Syslog, syslog_count, syslog_dump, syslog_dump_level, syslog_dump_last, at_least,
}
use oxalyn.Kernel.Syslog.Newest.{logged, stored, syslog_dumps}
use oxalyn.Kernel.Syscalls.Running.{fork, yield, checks, exit, sleep, spawn, kill, run, run-OneRuns}

-- The string "ab" at address 0.
abbrev text : ℕ → ℕ
text i = if i == 0 then 97 else if i == 1 then 98 else 0

abbrev ab : List ℕ
ab = 97 ∷ 98 ∷ []

text-StringAt : StringAt text 0 ab
text-StringAt = (refl, omega arith, (refl, omega arith, refl))

kstrcmp_lem_example : (r : ℤ) × (kstrcmp 3 text 0 text 0 ≡ some r) × ((r ≡ pos 0) ↔ (ab ≡ ab))
kstrcmp_lem_example = kstrcmp_lem text 0 text 0 ab ab text-StringAt text-StringAt

-- Of a string of two bytes copied with n = 4, a zero lands at address 4, behind the four bytes.
kstrncpy_short_example : kstrncpy (λ i. 7) 0 text 0 4 4 ≡ 0
kstrncpy_short_example = kstrncpy_short (λ i. 7) 0 text 0 4 ab 4 text-StringAt (omega arith)

abbrev process : ProcState → ℕ → Process
process st prio = record {
  regs = λ r. 0;
  pc = 0;
  state = st;
  priority = prio;
  ticks_remaining = 10;
  parent_pid = 0;
  signal_mask = 0;
  stack_base = 0;
  perf_cycles = 0;
  gui_enabled = 1;
  gui_faults = 0;
  gui_ops = 0;
  gui_pixels = 0;
  entry_fn = 0;
  affinity_mask = 0;
  last_cpu = 0;
  cpu_ticks = 0;
}

drawing-IsWithin : IsWithin (process running 4)
drawing-IsWithin = record {
  pixels_in = omega arith;
  ops_in = omega arith;
  faults_in = omega arith;
  quarantined = λ e. absurd (omega arith);
}

abbrev fill_screen : Draw
fill_screen = request (record { cmd = pos 0; x = pos 0; y = pos 0; w = pos 0; h = pos 0 })

spent-le_example :
    let (px, ops) = spent (process running 4) (fill_screen ∷ pixels 9 ∷ []) in
    (0 + px ≤ max_pixels) × (0 + ops ≤ max_ops)
spent-le_example = spent-le (process running 4) (fill_screen ∷ pixels 9 ∷ []) drawing-IsWithin

-- Process 0 runs, 1 and 2 are ready with priorities 3 and 5.
abbrev busy : Sched
busy = record {
  table = λ i.
      if i == 0
      then process running 4
      else if i == 1
      then process ready 3
      else if i == 2
      then process ready 5
      else process free 0;
  current_pid = 0;
  context_switches = 0;
}

scheduler_highest_example :
    let next = (scheduler busy).current_pid in
    (is_ready_at busy.table next ≡ true)
    × (next < max_processes)
    × ((j : ℕ)
        → j < max_processes
        → is_ready_at busy.table j ≡ true
        → level busy.table j ≤ level busy.table next)
scheduler_highest_example = scheduler_highest busy 1 (λ i. ground arith) (omega arith) refl

busy-OneRuns : OneRuns busy
busy-OneRuns = record { only = λ i r. ground arith; in_table = omega arith }

-- Process 0 forks and sleeps; process 2, which runs then, forks, is killed and sees the signal.
run-OneRuns_example :
    OneRuns (
      run busy
        (fork ∷ sleep 40 ∷ spawn 0x400 ∷ kill (pos 2) (pos 9) ∷ checks ∷ yield ∷ exit 1 ∷ []))
run-OneRuns_example =
    run-OneRuns busy
      (fork ∷ sleep 40 ∷ spawn 0x400 ∷ kill (pos 2) (pos 9) ∷ checks ∷ yield ∷ exit 1 ∷ [])
      busy-OneRuns

abbrev no_perms : Perms
no_perms i = record { resource = []; owner_uid = 0; perms = 0; used = false }

-- The file "ab" belongs to user 7, who may read and write it.
check_permission-perms_register_example :
    check_permission (perms_register no_perms ab 7 3) ab 7 perm_read ≡ (
      if same ab ab
      then 7 == 0 || (7 == 7 && has 3 perm_read)
      else check_permission no_perms ab 7 perm_read)
check_permission-perms_register_example =
    check_permission-perms_register no_perms ab ab 7 3 7 perm_read 0 refl (omega arith) refl

-- An entry in each tick, of levels from 0 to 6, more of them than the ring holds.
abbrev ticking : ℕ → SyslogEntry
ticking i = record { tick = i; level = i % 7; tag = ab; msg = ab }

abbrev no_log : Syslog
no_log = record { buf = λ i. ticking 0; head = 5; total = 9 }

syslog_dumps_example :
    (syslog_count (logged no_log ticking 200) ≡ min 201 128)
    × (syslog_dump (logged no_log ticking 200) ≡ stored ticking (201 - min 201 128) (min 201 128))
    × (syslog_dump_level (logged no_log ticking 200) 3
        ≡ at_least 3 (stored ticking (201 - min 201 128) (min 201 128)))
    × (syslog_dump_last (logged no_log ticking 200) (pos 10)
        ≡ stored ticking (201 - min 10 (min 201 128)) (min 10 (min 201 128)))
syslog_dumps_example = syslog_dumps no_log ticking 200 10 3
