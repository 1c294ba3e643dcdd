-- ===== src/Sim/Exec/Branch.antt =====
-- The jumps, calls and returns of execute() in simulator/sim.c. R7 is the stack pointer there.
use oxalyn.Base.{◌%◌, ◌^◌, Option, some, ◌==◌, if◌then◌else◌, u32, add32, add64, sub64, update}
use oxalyn.Sim.State.{Cpu, write_reg, flush}
use oxalyn.Sim.Exec.Insn.{Insn}

-- `pc += (uint32_t)imm; pipe_flush = 1;`
unfoldable pub jump : Insn → Cpu → Cpu
unfolding flush
jump i c = flush (record c { pc = add32 c.pc (u32 i.imm) })

unfoldable pub exec_jmp : Insn → Cpu → Option Cpu
exec_jmp i c = some (jump i c)

unfoldable pub exec_jz : Insn → Cpu → Option Cpu
exec_jz i c = some (if c.reg i.fd == 0 then jump i c else c)

unfoldable pub exec_jnz : Insn → Cpu → Option Cpu
exec_jnz i c = some (if c.reg i.fd == 0 then c else jump i c)

unfoldable pub exec_call : Insn → Cpu → Option Cpu
exec_call i c =
    let sp = sub64 (c.reg 7) 1 in
    some (jump i (record c { reg = update c.reg 7 sp; mem = update c.mem (sp % 2 ^ 16) c.pc }))

unfoldable pub exec_ret : Insn → Cpu → Option Cpu
unfolding flush
exec_ret i c = some (
    flush
      (record c { pc = u32 (c.mem (c.reg 7 % 2 ^ 16)); reg = update c.reg 7 (add64 (c.reg 7) 1) }))

-- The target is masked here, unlike in the other jumps.
unfoldable pub exec_jalr : Insn → Cpu → Option Cpu
unfolding flush
exec_jalr i c =
    let target = add64 (c.reg i.fa) i.imm in
    some (flush (record (write_reg c i.fd c.pc) { pc = target % 2 ^ 16 }))
