-- ===== src/Sim/Exec/Io.antt =====
-- OUT and IN of execute() in simulator/sim.c, in the build with the GPU: while the GPU is ready,
-- the ports 0xE0 to 0xFC are the GPU's.
pub mod Gpio
use oxalyn.Base.{
  ℕ, ◌%◌, Bool, false, ◌&&◌, List, [], ◌∷◌, Option, some, bit_and, bit_or, leb, ◌==◌, if◌then◌else◌,
  not64, update,
}
use oxalyn.Sim.Port
use oxalyn.Sim.Pending
use oxalyn.Sim.Priv
use oxalyn.Sim.Cause
use oxalyn.Sim.State.{Cpu, write_reg, gpu_read_word, gpu_write_word}
use oxalyn.Sim.Trap.{trap}
use oxalyn.Sim.Irq.{clear_mip}
use oxalyn.Sim.Exec.Insn.{Insn}

abbrev pub port_of : Insn → ℕ
port_of i = i.imm % 256

unfoldable pub is_gpu_port : Cpu → ℕ → Bool
is_gpu_port c port = leb Port.gpu_id port && leb port Port.gpu_last && c.gpu.ready

-- A byte goes to the serial line, which is busy for one cycle.
unfoldable pub uart_transmit : Cpu → ℕ → Cpu
unfolding clear_mip
uart_transmit c v =
    clear_mip
      (record c {
        uart = record c.uart {
          stdout = v % 256 ∷ c.uart.stdout;
          tx_ready = false;
          tx_busy_cycles = 1;
        };
      })
      Pending.uart_tx

-- `io_ports[IO_PORT_GPIO_INT_ST] &= ~reg[fd];`, and the line falls when no pin is left.
unfoldable pub acknowledge_gpio : Cpu → ℕ → Cpu
unfolding clear_mip
acknowledge_gpio c v =
    let st = bit_and (c.io_ports Port.gpio_int_st) (not64 v) in
    let c = record c { io_ports = update c.io_ports Port.gpio_int_st st } in
    if c.io_ports Port.gpio_int_st == 0 then clear_mip c Pending.ext else c

unfoldable pub out_port : Cpu → ℕ → ℕ → Cpu
unfolding is_gpu_port uart_transmit acknowledge_gpio
out_port c port v =
    let c = record c { io_ports = update c.io_ports port v } in
    if is_gpu_port c port
    then gpu_write_word c port v
    else if port == Port.uart_tx
    then uart_transmit c v
    else if port == Port.gpio_int_st
    then acknowledge_gpio c v
    else c

unfoldable pub exec_out : Insn → Cpu → Option Cpu
exec_out i c =
    if c.priv == Priv.user
    then some (trap c Cause.io_priv)
    else some (out_port c (port_of i) (c.reg i.fd))

-- getchar(): the next byte of standard input, or EOF as the word of all ones.
unfoldable pub get_char : List ℕ → ℕ × List ℕ
get_char [] = (0xFFFFFFFFFFFFFFFF, [])
get_char (b ∷ bs) = (b % 256, bs)

-- A pending UART byte is handed over and its interrupt withdrawn; otherwise the console is asked.
unfoldable pub uart_receive : Cpu → ℕ × Cpu
unfolding clear_mip get_char
uart_receive c =
    let (b, rest) = get_char c.uart.stdin in
    if c.uart.rx_pending
    then (
      c.io_ports Port.uart_rx % 256,
      clear_mip (record c { uart = record c.uart { rx_pending = false } }) Pending.uart_rx,
    )
    else (b, record c { uart = record c.uart { stdin = rest } })

-- Output pins read back what was written, input pins what is applied.
unfoldable pub gpio_level : Cpu → ℕ
gpio_level c =
    let dir = c.io_ports Port.gpio_dir in
    bit_or (bit_and (c.io_ports Port.gpio_val) dir) (bit_and c.gpio_input (not64 dir))

unfoldable pub in_port : Cpu → ℕ → ℕ × Cpu
unfolding is_gpu_port uart_receive gpio_level
in_port c port =
    if is_gpu_port c port
    then gpu_read_word c port
    else if port == Port.uart_rx
    then uart_receive c
    else if port == Port.uart_st
    then (if c.uart.rx_pending then 3 else 1, c)
    else if port == Port.gpio_val
    then (gpio_level c, c)
    else (c.io_ports port, c)

unfoldable pub exec_in : Insn → Cpu → Option Cpu
exec_in i c =
    let (v, c') = in_port c (port_of i) in
    if c.priv == Priv.user then some (trap c Cause.io_priv) else some (write_reg c' i.fd v)
