-- ===== src/Sim/Exec/Table.antt =====
-- The switch of execute() in simulator/sim.c: opcodes with their handlers.
use oxalyn.Base.{
  ℕ, List, [], ◌∷◌, Option, some, bit_and, bit_or, bit_xor, ◌==◌, if◌then◌else◌, update,
}
use mathlib.Core.Option
use oxalyn.Sim.Opcode
use oxalyn.Sim.Cause
use oxalyn.Sim.State.{Cpu}
use oxalyn.Sim.Trap.{trap}
use oxalyn.Sim.Exec.Insn.{Insn, decode}
use oxalyn.Sim.Exec.Alu.{
  exec_add, exec_sub, exec_mul, exec_div, exec_divu, exec_rem, exec_remu, exec_alu, exec_imm,
  alu_shl, alu_shr, alu_cmpeq, alu_cmpne, alu_cmplt, alu_cmple, alu_cmpltu, alu_cmpleu, alu_bset,
  alu_bclr, alu_btest, alu_li, alu_lui,
}
use oxalyn.Sim.Exec.Memory.{exec_load, exec_store, exec_loadb, exec_storeb, exec_eload, exec_estore}
use oxalyn.Sim.Exec.Branch.{exec_jmp, exec_jz, exec_jnz, exec_call, exec_ret, exec_jalr}
use oxalyn.Sim.Exec.Io.{exec_out, exec_in}
use oxalyn.Sim.Exec.System.{
  exec_nop, exec_halt, exec_rflags, exec_ecall, exec_eret, exec_csrw, exec_csrr, exec_wfi,
  exec_rand, exec_aese, exec_hash,
}

abbrev pub Handler : Type 0
Handler = Insn → Cpu → Option Cpu

unfoldable pub handlers : List (ℕ × Handler)
handlers =
    (Opcode.nop, exec_nop)
    ∷ (Opcode.halt, exec_halt)
    ∷ (Opcode.add, exec_add)
    ∷ (Opcode.sub, exec_sub)
    ∷ (Opcode.and, exec_alu bit_and)
    ∷ (Opcode.or, exec_alu bit_or)
    ∷ (Opcode.xor, exec_alu bit_xor)
    ∷ (Opcode.shl, exec_imm alu_shl)
    ∷ (Opcode.shr, exec_imm alu_shr)
    ∷ (Opcode.mul, exec_mul)
    ∷ (Opcode.div, exec_div)
    ∷ (Opcode.divu, exec_divu)
    ∷ (Opcode.rem, exec_rem)
    ∷ (Opcode.remu, exec_remu)
    ∷ (Opcode.load, exec_load)
    ∷ (Opcode.store, exec_store)
    ∷ (Opcode.loadb, exec_loadb)
    ∷ (Opcode.storeb, exec_storeb)
    ∷ (Opcode.eload, exec_eload)
    ∷ (Opcode.estore, exec_estore)
    ∷ (Opcode.rflags, exec_rflags)
    ∷ (Opcode.li, exec_imm alu_li)
    ∷ (Opcode.jmp, exec_jmp)
    ∷ (Opcode.jz, exec_jz)
    ∷ (Opcode.jnz, exec_jnz)
    ∷ (Opcode.call, exec_call)
    ∷ (Opcode.ret, exec_ret)
    ∷ (Opcode.out, exec_out)
    ∷ (Opcode.inp, exec_in)
    ∷ (Opcode.ecall, exec_ecall)
    ∷ (Opcode.eret, exec_eret)
    ∷ (Opcode.csrw, exec_csrw)
    ∷ (Opcode.csrr, exec_csrr)
    ∷ (Opcode.rand, exec_rand)
    ∷ (Opcode.fence, exec_nop)
    ∷ (Opcode.wfi, exec_wfi)
    ∷ (Opcode.aese, exec_aese)
    ∷ (Opcode.hash, exec_hash)
    ∷ (Opcode.lui, exec_imm alu_lui)
    ∷ (Opcode.jalr, exec_jalr)
    ∷ (Opcode.cmpeq, exec_alu alu_cmpeq)
    ∷ (Opcode.cmpne, exec_alu alu_cmpne)
    ∷ (Opcode.cmplt, exec_alu alu_cmplt)
    ∷ (Opcode.cmple, exec_alu alu_cmple)
    ∷ (Opcode.cmpltu, exec_alu alu_cmpltu)
    ∷ (Opcode.cmpleu, exec_alu alu_cmpleu)
    ∷ (Opcode.bset, exec_imm alu_bset)
    ∷ (Opcode.bclr, exec_imm alu_bclr)
    ∷ (Opcode.btest, exec_imm alu_btest)
    ∷ []

-- The `default:` of the switch.
unfoldable pub exec_unknown : Handler
exec_unknown i c = some (trap c Cause.ill_insn)

unfoldable pub handler_of : List (ℕ × Handler) → ℕ → Handler
handler_of [] op = exec_unknown
handler_of ((k, h) ∷ hs) op = if op == k then h else handler_of hs op

-- `reg[0] = 0;` at the end.
unfoldable pub clear_r0 : Cpu → Cpu
clear_r0 c = record c { reg = update c.reg 0 0 }

unfoldable pub execute : ℕ → Cpu → Option Cpu
unfolding handlers handler_of exec_unknown clear_r0 decode
execute insn c = let i = decode insn in Option.map clear_r0 (handler_of handlers i.opcode i c)
