-- ===== src/Sim/Step.antt =====
-- cpu_step and cpu_run of simulator/sim.c: the two-stage pipeline, the watchdog, and the fast path
-- that runs instructions in batches without looking at the interrupt sources. `none` is undefined
-- behaviour of the C code: a fetch outside `mem`, or that of `execute`.
pub mod Livelock
use oxalyn.Base.{
  ℕ, zero, suc, ◌+◌, ◌-◌, ◌*◌, ◌%◌, ◌^◌, Bool, true, false, not, ◌&&◌, ◌||◌, List, [], ◌∷◌, Option,
  none, some, bit_xor, ltb, leb, ◌==◌, if◌then◌else◌, u32, u64, add32, add64,
}
use oxalyn.Base.Int.{pos, signed32, ltb_ℤ}
use mathlib.Core.Option
use oxalyn.Sim.Index
use oxalyn.Sim.State.{Cpu, GpioEvent, mem_size}
use oxalyn.Sim.Irq.{poll_interrupt_sources, interrupt_pending, take_interrupt}
use oxalyn.Sim.Exec.Table.{execute}

infixl 5 ◌>>=◌
abbrev pub ◌>>=◌ {ℓ κ} : {A : Type ℓ} {B : Type κ} → Option A → (A → Option B) → Option B
none >>= f = none
some a >>= f = f a

abbrev pub tick : Cpu → Cpu
tick c = record c { cycles = add64 c.cycles 1 }

abbrev pub set_flush : Cpu → Bool → Cpu
set_flush c b = record c { pipe = record c.pipe { flush = b } }

abbrev pub set_valid : Cpu → Bool → Cpu
set_valid c b = record c { pipe = record c.pipe { valid = b } }

-- Stage 1: the word fetched ahead, or one from memory.
unfoldable pub fetch : Cpu → Option (ℕ × Cpu)
fetch c =
    let next = record c { pc = add32 c.pc 1 } in
    if c.pipe.valid
    then some (c.pipe.insn, set_valid next false)
    else if ltb c.pc mem_size
    then some (u32 (c.mem c.pc), next)
    else none

-- Stage 2: the word at the new PC is fetched ahead.
unfoldable pub prefetch : Cpu → Cpu
prefetch c =
    if not c.halted && ltb c.pc mem_size
    then record c { pipe = record c.pipe { insn = u32 (c.mem c.pc); valid = true } }
    else c

-- Stage 4: a taken jump costs a cycle and drops the word fetched ahead.
unfoldable pub flush_stage : Cpu → Cpu
flush_stage c = if c.pipe.flush then tick (set_valid c false) else c

-- The state that the watchdog compares, over R0 to R31.
unfoldable pub signature : ℕ → ℕ → (ℕ → ℕ) → ℕ → ℕ
signature zero r reg sig = sig
signature (suc n) r reg sig = signature n (r + 1) reg (bit_xor (u64 (sig * 33)) (reg r))

unfoldable pub watchdog_step : Cpu → Cpu
unfolding signature
watchdog_step c =
    let sig = signature 32 0 c.reg c.pc in
    let stalls = add32 c.watchdog.stall_count 1 in
    if not (c.resilient && ltb 0 c.watchdog.limit && not c.halted)
    then c
    else if not (sig == c.watchdog.last_sig)
    then record c { watchdog = record c.watchdog { stall_count = 0; last_sig = sig } }
    else if ltb stalls c.watchdog.limit
    then record c { watchdog = record c.watchdog { stall_count = stalls } }
    else record c {
      health = record c.health { watchdog_resets = add32 c.health.watchdog_resets 1 };
      pc = 0;
      pipe = record c.pipe { valid = false };
      watchdog = record c.watchdog { stall_count = 0; last_sig = 0xFFFFFFFF };
    }

-- Fetch, prefetch and execute, as both paths do it.
unfoldable pub run_insn : Cpu → Option Cpu
unfolding fetch prefetch
run_insn c = do (insn, c) ← fetch (set_flush c false); c ← execute insn (prefetch c); some (tick c)

-- cpu_step once the interrupt sources have been looked at.
unfoldable pub act : Cpu → Option Cpu
unfolding flush_stage
act c =
    let asleep = tick c in
    if c.waiting_for_interrupt
    then some (if interrupt_pending asleep then take_interrupt asleep else asleep)
    else if c.halted
    then some c
    else if interrupt_pending c
    then some (take_interrupt c)
    else Option.map (λ c. watchdog_step (flush_stage c)) (run_insn c)

unfoldable pub cpu_step : Cpu → Option Cpu
unfolding act
cpu_step c = act (poll_interrupt_sources c)

-- `max_cycles >= 0 && (int)cycles >= max_cycles`, where `none` is a negative bound.
unfoldable pub out_of_budget : Option ℕ → Cpu → Bool
out_of_budget none c = false
out_of_budget (some n) c = not (ltb_ℤ (signed32 (u32 c.cycles)) (pos n))

-- `if (!halted && interrupt_pending()) take_interrupt();`
unfoldable pub serve : Cpu → Cpu
serve c = if not c.halted && interrupt_pending c then take_interrupt c else c

-- One batch of the fast path. `false` says that WFI has ended the fast path for good.
unfoldable pub fast_batch : ℕ → Option ℕ → Cpu → Option (Bool × Cpu)
unfolding serve flush_stage
fast_batch zero max_cycles c = some (true, c)
fast_batch (suc left) max_cycles c =
    let more = run_insn c >>= λ c.
    let rest = fast_batch left max_cycles (flush_stage c) in
    if c.waiting_for_interrupt then some (false, serve (poll_interrupt_sources c)) else rest in
    if c.halted || out_of_budget max_cycles c then some (true, c) else more

-- The outer loop of the fast path, for `rounds` batches at most.
unfoldable pub fast_loop : ℕ → Option ℕ → Cpu → Option (Bool × Cpu)
fast_loop zero max_cycles c = some (true, c)
fast_loop (suc rounds) max_cycles c =
    let more = fast_batch 128 max_cycles c >>= λ (fast, c).
    let polled = poll_interrupt_sources c in
    let rest = fast_loop rounds max_cycles polled in
    if not fast
    then some (false, c)
    else if not polled.halted && interrupt_pending polled
    then some (false, take_interrupt polled)
    else rest in
    if c.halted || out_of_budget max_cycles c then some (true, c) else more

-- The loop over cpu_step, for `rounds` steps at most.
unfoldable pub normal_loop : ℕ → Option ℕ → Cpu → Option Cpu
normal_loop zero max_cycles c = some c
normal_loop (suc rounds) max_cycles c =
    let more = cpu_step c >>= λ c. normal_loop rounds max_cycles c in
    if c.halted || out_of_budget max_cycles c then some c else more

abbrev is_empty : List GpioEvent → Bool
is_empty [] = true
is_empty (e ∷ es) = false

abbrev is_none : Option ℕ → Bool
is_none none = true
is_none (some t) = false

-- The fast path is chosen when no interrupt is set up.
unfoldable pub may_run_fast : Cpu → Bool
may_run_fast c =
    not c.resilient
    && c.csr Index.mie == 0
    && c.csr Index.mtimecmp == 0
    && is_empty c.gpio_events
    && is_none c.irq_ext_at_cycle

-- What a run of `rounds` rounds reaches: a program need not end.
unfoldable pub cpu_run : ℕ → Option ℕ → Cpu → Option Cpu
unfolding may_run_fast fast_loop fast_batch normal_loop out_of_budget
cpu_run rounds max_cycles c =
    let slow = normal_loop rounds max_cycles c in
    let quick = fast_loop rounds max_cycles c >>= λ (fast, c).
    if fast then some c else normal_loop rounds max_cycles c in
    if may_run_fast c then quick else slow
