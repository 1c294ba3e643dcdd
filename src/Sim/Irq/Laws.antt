-- ===== src/Sim/Irq/Laws.antt =====
-- What polling the interrupt sources leaves alone, and what it cannot lose.
use oxalyn.Base.{
  ℕ, ◌≤◌, ◌-◌, ◌≡◌, refl, ◌∙◌, Bool, true, false, not, ◌&&◌, List, [], ◌∷◌, none, leb, ◌==◌,
  if◌then◌else◌, inl, inr, Bool-cases, arith, not32, update,
}
use oxalyn.Base.Bits.{bit, bit-lt, bit-bit_and, bit-bit_or}
use oxalyn.Sim.Index
use oxalyn.Sim.Pending
use oxalyn.Sim.Port
use oxalyn.Sim.State.{Cpu, GpioEvent}
use oxalyn.Sim.Irq.{
  raise_mip, clear_mip, due, poll_timer, poll_ext, poll_uart_rx, poll_uart_tx, apply_gpio,
  poll_gpio_events, poll_gpio, poll_interrupt_sources,
}

-- The program and the control registers that decide about interrupts, MIP excepted.
pub record Core : Type 0 where
  pub reg : ℕ → ℕ
  pub mem : ℕ → ℕ
  pub pc : ℕ
  pub flags : ℕ
  pub halted : Bool
  pub waiting : Bool
  pub cycles : ℕ
  pub priv : ℕ
  pub mtvec : ℕ
  pub stvec : ℕ
  pub mstatus : ℕ
  pub mie : ℕ
  pub mtimecmp : ℕ
  pub mideleg : ℕ
  pub sie : ℕ

abbrev pub core : Cpu → Core
core c = record {
  reg = c.reg;
  mem = c.mem;
  pc = c.pc;
  flags = c.flags;
  halted = c.halted;
  waiting = c.waiting_for_interrupt;
  cycles = c.cycles;
  priv = c.priv;
  mtvec = c.csr Index.mtvec;
  stvec = c.csr Index.stvec;
  mstatus = c.csr Index.mstatus;
  mie = c.csr Index.mie;
  mtimecmp = c.csr Index.mtimecmp;
  mideleg = c.csr Index.mideleg;
  sie = c.csr Index.sie;
}

-- The pending bit of the timer.
abbrev pub timer_bit : Cpu → ℕ
timer_bit c = bit 0 (c.csr Index.mip)

-- A step of the polling changes nothing of the core, and keeps the timer's bit.
abbrev Keeps : (Cpu → Cpu) → Cpu → Type 0
Keeps f c = (core (f c) ≡ core c) × (timer_bit c ≤ timer_bit (f c))

raise_mip-Keeps : (c : Cpu) (m : ℕ) → Keeps (λ c. raise_mip c m) c
unfolding raise_mip update
raise_mip-Keeps c m = (refl, omega (arith, bit-bit_or 0 (c.csr Index.mip) m))

clear_tx-Keeps : (c : Cpu) → Keeps (λ c. clear_mip c Pending.uart_tx) c
unfolding clear_mip update
clear_tx-Keeps c = (
  refl,
  omega (arith, bit-bit_and 0 (c.csr Index.mip) (not32 8), one, bit-lt 0 (c.csr Index.mip)),
)
  where
    one : bit 0 (not32 8) ≡ 1
    one = unfold bit in refl

poll_timer-Keeps : (c : Cpu) → Keeps poll_timer c
unfolding poll_timer
poll_timer-Keeps c =
    elim (Bool-cases (not (c.csr Index.mtimecmp == 0) && leb (c.csr Index.mtimecmp) c.cycles)) [
      | inl e ↦ simp e (raise_mip-Keeps c Pending.timer)
      | inr e ↦ simp e (refl, omega arith)
    ]

Keeps-comp : (f g : Cpu → Cpu) (c : Cpu) → Keeps g c → Keeps f (g c) → Keeps (λ c. f (g c)) c
Keeps-comp f g c k l = (l.0 ∙ k.0, omega (arith, k.1, l.1))

poll_ext-Keeps : (c : Cpu) → Keeps poll_ext c
unfolding poll_ext
poll_ext-Keeps c = elim (Bool-cases (due c.irq_ext_at_cycle c.cycles)) [
  | inl e ↦ simp e (raise_mip-Keeps c Pending.ext)
  | inr e ↦ simp e (refl, omega arith)
]

if_raise-Keeps : (b : Bool) (c : Cpu) (m : ℕ) → Keeps (λ c. if b then raise_mip c m else c) c
if_raise-Keeps true c m = raise_mip-Keeps c m
if_raise-Keeps false c m = (refl, omega arith)

poll_uart_rx-Keeps : (c : Cpu) → Keeps poll_uart_rx c
unfolding poll_uart_rx
poll_uart_rx-Keeps c = elim (Bool-cases (due c.uart.rx_at_cycle c.cycles)) [
  | inl e ↦ simp e (
      raise_mip-Keeps
        (record c {
          io_ports = update c.io_ports Port.uart_rx c.uart.rx_event_value;
          uart = record c.uart { rx_pending = true; rx_at_cycle = none };
        })
        Pending.uart_rx)
  | inr e ↦ simp e (if_raise-Keeps c.uart.rx_pending c Pending.uart_rx)
]

if_tx-Keeps :
    (b : Bool) (c : Cpu)
    → Keeps (λ c. if b then raise_mip c Pending.uart_tx else clear_mip c Pending.uart_tx) c
if_tx-Keeps true c = raise_mip-Keeps c Pending.uart_tx
if_tx-Keeps false c = clear_tx-Keeps c

poll_uart_tx-Keeps : (c : Cpu) → Keeps poll_uart_tx c
unfolding poll_uart_tx
poll_uart_tx-Keeps c = elim (Bool-cases (c.uart.tx_busy_cycles == 0)) [
  | inl e ↦ simp e (if_tx-Keeps c.uart.tx_ready c)
  | inr e ↦ simp e (
      if_tx-Keeps _ (record c {
        uart = record c.uart {
          tx_busy_cycles = c.uart.tx_busy_cycles - 1;
          tx_ready = if c.uart.tx_busy_cycles - 1 == 0 then true else c.uart.tx_ready;
        };
      }))
]

if-Keeps :
    (b : Bool) (c x y : Cpu)
    → Keeps (λ c. x) c
    → Keeps (λ c. y) c
    → Keeps (λ c. if b then x else y) c
if-Keeps true c x y k l = k
if-Keeps false c x y k l = l

apply_gpio-Keeps : (c : Cpu) (e : GpioEvent) → Keeps (λ c. apply_gpio c e) c
unfolding apply_gpio raise_mip update
apply_gpio-Keeps c e =
    if-Keeps _ c _ _ (refl, omega arith)
      (refl, omega (arith, bit-bit_or 0 (c.csr Index.mip) Pending.ext))

poll_gpio_events-Keeps : (es : List GpioEvent) (c : Cpu) → Keeps (λ c. (poll_gpio_events es c).1) c
unfolding poll_gpio_events
poll_gpio_events-Keeps [] c = (refl, omega arith)
poll_gpio_events-Keeps (e ∷ es) c = elim (Bool-cases (due e.cycle c.cycles)) [
  | inl d ↦ simp d (
      Keeps-comp (λ c. (poll_gpio_events es c).1) (λ c. apply_gpio c e) c (apply_gpio-Keeps c e)
        (poll_gpio_events-Keeps es (apply_gpio c e)))
  | inr d ↦ simp d (poll_gpio_events-Keeps es c)
]

poll_gpio-Keeps : (c : Cpu) → Keeps poll_gpio c
unfolding poll_gpio
poll_gpio-Keeps c = poll_gpio_events-Keeps c.gpio_events c

-- The sources after the timer.
abbrev pub poll_others : Cpu → Cpu
poll_others c = poll_gpio (poll_uart_tx (poll_uart_rx (poll_ext c)))

poll_others-Keeps : (c : Cpu) → Keeps poll_others c
poll_others-Keeps c =
    Keeps-comp (λ c. poll_gpio (poll_uart_tx (poll_uart_rx c))) poll_ext c (poll_ext-Keeps c)
      (Keeps-comp (λ c. poll_gpio (poll_uart_tx c)) poll_uart_rx _ (poll_uart_rx-Keeps _)
        (Keeps-comp poll_gpio poll_uart_tx _ (poll_uart_tx-Keeps _) (poll_gpio-Keeps _)))

-- Polling the interrupt sources changes no register, no memory, not the PC, the flags, the
-- privilege, the cycle count nor any control register that decides about interrupts except MIP,
-- and it never loses a pending timer interrupt.
pub poll-Keeps :
    (c : Cpu)
    → (core (poll_interrupt_sources c) ≡ core c)
      × (timer_bit c ≤ timer_bit (poll_interrupt_sources c))
unfolding poll_interrupt_sources
poll-Keeps c =
    Keeps-comp poll_others poll_timer c (poll_timer-Keeps c) (poll_others-Keeps (poll_timer c))

-- The timer has reached its compare value.
abbrev pub timer_due : Core → Bool
timer_due k = not (k.mtimecmp == 0) && leb k.mtimecmp k.cycles

-- Polling reports a timer that has reached its compare value.
pub poll-timer : (c : Cpu) → timer_due (core c) ≡ true → timer_bit (poll_interrupt_sources c) ≡ 1
unfolding poll_interrupt_sources
poll-timer c ready = omega (
  arith,
  raised,
  (poll_others-Keeps (poll_timer c)).1,
  bit-lt 0 ((poll_interrupt_sources c).csr Index.mip),
)
  where
    flag : bit 0 Pending.timer ≡ 1
    flag = unfold bit in refl

    raised : timer_bit (poll_timer c) ≡ 1
    raised =
        unfold poll_timer in
        unfold raise_mip in
        unfold update in
        simp ready (
          omega
            (arith, bit-bit_or 0 (c.csr Index.mip) Pending.timer, bit-lt 0 (c.csr Index.mip), flag))
