-- ===== src/Sim/Irq.antt =====
-- Interrupts of simulator/sim.c: the sources, the test for a pending one, and taking it.
pub mod Laws
use oxalyn.Base.{
  ℕ, ◌-◌, ◌%◌, ◌^◌, Bool, true, false, not, ◌&&◌, ◌||◌, List, [], ◌∷◌, Option, none, some, bit_and,
  bit_or, bit_xor, leb, ◌==◌, if◌then◌else◌, has, u32, not32, not64, add32, update,
}
use oxalyn.Sim.Index
use oxalyn.Sim.Status
use oxalyn.Sim.Pending
use oxalyn.Sim.Priv
use oxalyn.Sim.Port
use oxalyn.Sim.Cause
use oxalyn.Sim.State.{Cpu, GpioEvent, set_csr}
use oxalyn.Sim.Trap.{enter_supervisor, save_machine, set_priv}

-- `csr[CSR_MIP] |= m;` and `csr[CSR_MIP] &= ~m;`, the mask being a 32-bit constant.
unfoldable pub raise_mip : Cpu → ℕ → Cpu
unfolding set_csr
raise_mip c m = set_csr c Index.mip (bit_or (c.csr Index.mip) m)

unfoldable pub clear_mip : Cpu → ℕ → Cpu
unfolding set_csr
clear_mip c m = set_csr c Index.mip (bit_and (c.csr Index.mip) (not32 m))

-- An event whose cycle has come.
abbrev pub due : Option ℕ → ℕ → Bool
due none now = false
due (some t) now = leb t now

unfoldable pub poll_timer : Cpu → Cpu
unfolding raise_mip
poll_timer c =
    if not (c.csr Index.mtimecmp == 0) && leb (c.csr Index.mtimecmp) c.cycles
    then raise_mip c Pending.timer
    else c

unfoldable pub poll_ext : Cpu → Cpu
unfolding raise_mip
poll_ext c =
    if due c.irq_ext_at_cycle c.cycles
    then record (raise_mip c Pending.ext) { irq_ext_at_cycle = none }
    else c

unfoldable pub poll_uart_rx : Cpu → Cpu
unfolding raise_mip
poll_uart_rx c =
    let c =
      if due c.uart.rx_at_cycle c.cycles
      then record c {
        io_ports = update c.io_ports Port.uart_rx c.uart.rx_event_value;
        uart = record c.uart { rx_pending = true; rx_at_cycle = none };
      }
      else c in
    if c.uart.rx_pending then raise_mip c Pending.uart_rx else c

unfoldable pub poll_uart_tx : Cpu → Cpu
unfolding raise_mip clear_mip
poll_uart_tx c =
    let busy = c.uart.tx_busy_cycles in
    let c = if busy == 0 then c else record c {
      uart = record c.uart {
        tx_busy_cycles = busy - 1;
        tx_ready = if busy - 1 == 0 then true else c.uart.tx_ready;
      };
    } in
    if c.uart.tx_ready then raise_mip c Pending.uart_tx else clear_mip c Pending.uart_tx

-- One GPIO event that is due: the pin takes its value, and a change of an input pin whose
-- interrupt is enabled is reported.
unfoldable pub apply_gpio : Cpu → GpioEvent → Cpu
unfolding raise_mip
apply_gpio c e =
    let mask = 2 ^ (e.pin % 64) in
    let old_in = c.gpio_input in
    let level = if e.val == 0 then 0 else mask in
    let new_in = bit_or (bit_and old_in (not64 mask)) level in
    let changed = bit_xor old_in new_in in
    let inputs = bit_and changed (not64 (c.io_ports Port.gpio_dir)) in
    let triggered = bit_and inputs (c.io_ports Port.gpio_int_en) in
    let c = record c { gpio_input = new_in } in
    if triggered == 0
    then c
    else raise_mip
        (record c {
          io_ports =
              update c.io_ports Port.gpio_int_st (bit_or (c.io_ports Port.gpio_int_st) triggered);
        })
        Pending.ext

-- The loop over the events: those done keep their place with no cycle.
unfoldable pub poll_gpio_events : List GpioEvent → Cpu → List GpioEvent × Cpu
unfolding apply_gpio
poll_gpio_events [] c = ([], c)
poll_gpio_events (e ∷ es) c =
    let fires = due e.cycle c.cycles in
    let (es', c') = poll_gpio_events es (if fires then apply_gpio c e else c) in
    ((if fires then record e { cycle = none } else e) ∷ es', c')

unfoldable pub poll_gpio : Cpu → Cpu
poll_gpio c = let (es, c') = poll_gpio_events c.gpio_events c in record c' { gpio_events = es }

unfoldable pub poll_interrupt_sources : Cpu → Cpu
poll_interrupt_sources c = poll_gpio (poll_uart_tx (poll_uart_rx (poll_ext (poll_timer c))))

-- The sources that are pending and enabled, for either mode.
abbrev pub pending_machine : Cpu → ℕ
pending_machine c = bit_and (c.csr Index.mip) (c.csr Index.mie)

abbrev pub pending_supervisor : Cpu → ℕ
pending_supervisor c = bit_and (bit_and (c.csr Index.mip) (c.csr Index.mideleg)) (c.csr Index.sie)

-- A delegated interrupt is pending below machine mode, with SIE set.
unfoldable pub supervisor_pending : Cpu → Bool
supervisor_pending c =
    not (c.priv == Priv.machine)
    && has (c.csr Index.mstatus) Status.sie
    && not (pending_supervisor c == 0)

unfoldable pub machine_pending : Cpu → Bool
machine_pending c = has (c.csr Index.mstatus) Status.mie && not (pending_machine c == 0)

unfoldable pub interrupt_pending : Cpu → Bool
interrupt_pending c = machine_pending c || supervisor_pending c

-- Of several sources the timer goes first, then UART RX, UART TX, and the rest.
unfoldable pub interrupt_cause : ℕ → ℕ
interrupt_cause pend =
    if has pend Pending.timer
    then Cause.int_timer
    else if has pend Pending.uart_rx
    then Cause.int_uart_rx
    else if has pend Pending.uart_tx
    then Cause.int_uart_tx
    else Cause.int_ext

-- What both ways to take an interrupt do first.
unfoldable pub wake : Cpu → Cpu
wake c = record c {
  health = record c.health { interrupts = add32 c.health.interrupts 1 };
  waiting_for_interrupt = false;
  pipe = record c.pipe { flush = true; valid = false };
}

unfoldable pub take_interrupt_s : Cpu → ℕ → Cpu
unfolding wake enter_supervisor set_priv set_csr
take_interrupt_s c cause =
    let st = enter_supervisor c.priv (c.csr Index.mstatus) in
    let c = set_csr (set_csr (wake c) Index.sepc c.pc) Index.scause cause in
    let c = set_priv (set_csr c Index.mstatus st) Priv.supervisor in
    record c { pc = u32 (c.csr Index.stvec) }

-- With no handler installed the pending bits are dropped.
unfoldable pub take_interrupt_m : Cpu → Cpu
unfolding wake save_machine set_csr
take_interrupt_m c =
    let pend = pending_machine c in
    if c.csr Index.mtvec == 0
    then set_csr c Index.mip (bit_and (c.csr Index.mip) (not64 (bit_and pend 15)))
    else let c = save_machine (wake c) (interrupt_cause pend) in
      record c { pc = u32 (c.csr Index.mtvec) }

unfoldable pub take_interrupt : Cpu → Cpu
unfolding take_interrupt_s take_interrupt_m set_csr
take_interrupt c =
    let pend = pending_supervisor c in
    if supervisor_pending c
    then if c.csr Index.stvec == 0
      then set_csr c Index.mip (bit_and (c.csr Index.mip) (not64 pend))
      else take_interrupt_s c (interrupt_cause pend)
    else take_interrupt_m c
