-- ===== src/Sim/Exec/Alu.antt =====
-- The arithmetic, logic, comparison and bit instructions of execute() in simulator/sim.c.
use oxalyn.Base.{
  ℕ, ◌*◌, ◌/◌, ◌%◌, ◌^◌, Bool, not, ◌&&◌, Option, none, some, bit_and, bit_or, bit_xor, ltb, leb,
  ◌==◌, if◌then◌else◌, sign_bit, u64, add64, sub64, shl64, shr, not64,
}
use oxalyn.Base.Int.{signed64, unsigned64, div_ℤ, rem_ℤ, ltb_ℤ}
use oxalyn.Sim.Cause
use oxalyn.Sim.State.{Cpu, write_reg}
use oxalyn.Sim.Trap.{trap}
use oxalyn.Sim.Exec.Insn.{Insn}

-- `if (test) flags |= bit;`
abbrev pub raise : Bool → ℕ → ℕ → ℕ
raise test m f = if test then bit_or f m else f

-- Z, C, V and N after an addition and after a subtraction.
unfoldable pub add_flags : ℕ → ℕ → ℕ
add_flags a b =
    let r = add64 a b in
    let f = raise (r == 0) 1 0 in
    let f = raise (ltb r a) 2 f in
    let f = raise (not (sign_bit (bit_xor a b)) && sign_bit (bit_xor a r)) 4 f in
    raise (sign_bit r) 8 f

unfoldable pub sub_flags : ℕ → ℕ → ℕ
sub_flags a b =
    let r = sub64 a b in
    let f = raise (r == 0) 1 0 in
    let f = raise (ltb a b) 2 f in
    let f = raise (sign_bit (bit_xor a b) && sign_bit (bit_xor a r)) 4 f in raise (sign_bit r) 8 f

-- After a multiplication C and V say that the product does not fit 64 bits.
unfoldable pub mul_flags : ℕ → ℕ → ℕ
mul_flags a b =
    let r = u64 (a * b) in
    let f = raise (r == 0) 1 0 in
    let f = raise (ltb 0xFFFFFFFFFFFFFFFF (a * b)) 6 f in raise (sign_bit r) 8 f

unfoldable pub exec_add : Insn → Cpu → Option Cpu
unfolding add_flags
exec_add i c =
    let a = c.reg i.fa in
    let b = c.reg i.fb in some (write_reg (record c { flags = add_flags a b }) i.fd (add64 a b))

unfoldable pub exec_sub : Insn → Cpu → Option Cpu
unfolding sub_flags
exec_sub i c =
    let a = c.reg i.fa in
    let b = c.reg i.fb in some (write_reg (record c { flags = sub_flags a b }) i.fd (sub64 a b))

unfoldable pub exec_mul : Insn → Cpu → Option Cpu
unfolding mul_flags
exec_mul i c =
    let a = c.reg i.fa in
    let b = c.reg i.fb in some (write_reg (record c { flags = mul_flags a b }) i.fd (u64 (a * b)))

-- The instructions that only compute a word from two registers.
unfoldable pub exec_alu : (ℕ → ℕ → ℕ) → Insn → Cpu → Option Cpu
exec_alu f i c = some (write_reg c i.fd (f (c.reg i.fa) (c.reg i.fb)))

-- Those that compute one from a register and the immediate.
unfoldable pub exec_imm : (ℕ → ℕ → ℕ) → Insn → Cpu → Option Cpu
exec_imm f i c = some (write_reg c i.fd (f (c.reg i.fa) i.imm))

unfoldable pub alu_shl : ℕ → ℕ → ℕ
alu_shl a imm = shl64 a (imm % 64)

unfoldable pub alu_shr : ℕ → ℕ → ℕ
alu_shr a imm = shr a (imm % 64)

-- The result of a comparison.
abbrev pub truth : Bool → ℕ
truth b = if b then 1 else 0

unfoldable pub alu_cmpeq : ℕ → ℕ → ℕ
alu_cmpeq a b = truth (a == b)

unfoldable pub alu_cmpne : ℕ → ℕ → ℕ
alu_cmpne a b = truth (not (a == b))

unfoldable pub alu_cmplt : ℕ → ℕ → ℕ
alu_cmplt a b = truth (ltb_ℤ (signed64 a) (signed64 b))

unfoldable pub alu_cmple : ℕ → ℕ → ℕ
alu_cmple a b = truth (not (ltb_ℤ (signed64 b) (signed64 a)))

unfoldable pub alu_cmpltu : ℕ → ℕ → ℕ
alu_cmpltu a b = truth (ltb a b)

unfoldable pub alu_cmpleu : ℕ → ℕ → ℕ
alu_cmpleu a b = truth (leb a b)

unfoldable pub alu_bset : ℕ → ℕ → ℕ
alu_bset a imm = bit_or a (2 ^ (imm % 64))

unfoldable pub alu_bclr : ℕ → ℕ → ℕ
alu_bclr a imm = bit_and a (not64 (2 ^ (imm % 64)))

unfoldable pub alu_btest : ℕ → ℕ → ℕ
alu_btest a imm = shr a (imm % 64) % 2

unfoldable pub alu_li : ℕ → ℕ → ℕ
alu_li a imm = imm

unfoldable pub alu_lui : ℕ → ℕ → ℕ
alu_lui a imm = shl64 imm 16

-- A division, signed or not, of which the divisor 0 traps.
abbrev pub guarded : (Insn → Cpu → Option Cpu) → Insn → Cpu → Option Cpu
guarded f i c =
    let divides = f i c in if c.reg i.fb == 0 then some (trap c Cause.div_zero) else divides

-- The least `int64_t` divided by -1 overflows, which C leaves undefined.
unfoldable pub overflows : ℕ → ℕ → Bool
overflows a b = a == 2 ^ 63 && b == 0xFFFFFFFFFFFFFFFF

unfoldable pub signed_quotient : Insn → Cpu → Option Cpu
signed_quotient i c =
    let a = c.reg i.fa in
    let b = c.reg i.fb in
    if overflows a b
    then none
    else some (write_reg c i.fd (unsigned64 (div_ℤ (signed64 a) (signed64 b))))

unfoldable pub signed_remainder : Insn → Cpu → Option Cpu
signed_remainder i c =
    let a = c.reg i.fa in
    let b = c.reg i.fb in
    if overflows a b
    then none
    else some (write_reg c i.fd (unsigned64 (rem_ℤ (signed64 a) (signed64 b))))

unfoldable pub exec_div : Insn → Cpu → Option Cpu
exec_div = guarded signed_quotient

unfoldable pub exec_rem : Insn → Cpu → Option Cpu
exec_rem = guarded signed_remainder

unfoldable pub exec_divu : Insn → Cpu → Option Cpu
exec_divu = guarded (exec_alu ◌/◌)

unfoldable pub exec_remu : Insn → Cpu → Option Cpu
exec_remu = guarded (exec_alu ◌%◌)
