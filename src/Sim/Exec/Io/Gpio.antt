-- ===== src/Sim/Exec/Io/Gpio.antt =====
-- What OUT does to the interrupt status of the GPIO pins, in simulator/sim.c.
use oxalyn.Base.{
  ℕ, ◌^◌, ◌<◌, ◌≡◌, ◌≢◌, refl, false, some, ◌==◌, arith, update, bit_and, not64, not32,
}
use oxalyn.Base.Bits.{bit, bit-bit_and, bit_and-own_complement}
use oxalyn.Sim.Index
use oxalyn.Sim.Port
use oxalyn.Sim.Priv
use oxalyn.Sim.State.{Cpu}
use oxalyn.Sim.Irq.{clear_mip}
use oxalyn.Sim.Exec.Insn.{Insn}
use oxalyn.Sim.Exec.Io.{exec_out, out_port, acknowledge_gpio, is_gpu_port, port_of}

-- The acknowledgement finds in the port the value that the same instruction has just stored.
out_port-clears :
    (c : Cpu) (v : ℕ)
    → c.gpu.ready ≡ false
    → v < 2 ^ 64
    → let c' = out_port c Port.gpio_int_st v in
      (c'.io_ports Port.gpio_int_st ≡ 0) × (bit 1 (c'.csr Index.mip) ≡ 0)
unfolding out_port is_gpu_port acknowledge_gpio clear_mip update
out_port-clears c v g h =
    let none_left : bit_and v (not64 v) ≡ 0 = bit_and-own_complement 64 v h in
    simp (g, none_left) (refl, omega (arith, bit-bit_and 1 (c.csr Index.mip) (not32 2), ext_off))
  where
    ext_off : bit 1 (not32 2) ≡ 0
    ext_off = unfold bit in refl

-- While no GPU is ready, an OUT to the interrupt status of the pins, below user mode and with any
-- value, clears the status of every pin and the pending external interrupt: also of pins that
-- the value does not name.
exec_out-clears :
    (i : Insn) (c : Cpu)
    → c.priv ≢ Priv.user
    → c.gpu.ready ≡ false
    → port_of i ≡ Port.gpio_int_st
    → c.reg i.fd < 2 ^ 64
    → (c' : Cpu) × (exec_out i c ≡ some c')
      × ((c'.io_ports Port.gpio_int_st ≡ 0) × (bit 1 (c'.csr Index.mip) ≡ 0))
unfolding exec_out
exec_out-clears i c u g p v =
    let below : (c.priv == Priv.user) ≡ false = ground arith in
    (
      out_port c Port.gpio_int_st (c.reg i.fd),
      rw (below, p) refl,
      out_port-clears c (c.reg i.fd) g v,
    )
