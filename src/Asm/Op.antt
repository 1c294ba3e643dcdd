-- ===== src/Asm/Op.antt =====
-- The opcodes of asm.c.
use oxalyn.Base.{ℕ}

abbrev pub op_nop : ℕ
op_nop = 0x00

abbrev pub op_add : ℕ
op_add = 0x01

abbrev pub op_sub : ℕ
op_sub = 0x02

abbrev pub op_and : ℕ
op_and = 0x03

abbrev pub op_or : ℕ
op_or = 0x04

abbrev pub op_xor : ℕ
op_xor = 0x05

abbrev pub op_shl : ℕ
op_shl = 0x06

abbrev pub op_shr : ℕ
op_shr = 0x07

abbrev pub op_load : ℕ
op_load = 0x08

abbrev pub op_store : ℕ
op_store = 0x09

abbrev pub op_li : ℕ
op_li = 0x0A

abbrev pub op_jmp : ℕ
op_jmp = 0x0B

abbrev pub op_jz : ℕ
op_jz = 0x0C

abbrev pub op_jnz : ℕ
op_jnz = 0x0D

abbrev pub op_call : ℕ
op_call = 0x0E

abbrev pub op_ret : ℕ
op_ret = 0x0F

abbrev pub op_out : ℕ
op_out = 0x10

abbrev pub op_in : ℕ
op_in = 0x11

abbrev pub op_halt : ℕ
op_halt = 0x3F

abbrev pub op_ecall : ℕ
op_ecall = 0x12

abbrev pub op_eret : ℕ
op_eret = 0x13

abbrev pub op_csrw : ℕ
op_csrw = 0x14

abbrev pub op_csrr : ℕ
op_csrr = 0x15

abbrev pub op_rand : ℕ
op_rand = 0x16

abbrev pub op_fence : ℕ
op_fence = 0x17

abbrev pub op_aese : ℕ
op_aese = 0x18

abbrev pub op_hash : ℕ
op_hash = 0x19

abbrev pub op_mul : ℕ
op_mul = 0x1A

abbrev pub op_div : ℕ
op_div = 0x1B

abbrev pub op_eload : ℕ
op_eload = 0x1C

abbrev pub op_estore : ℕ
op_estore = 0x1D

abbrev pub op_rflags : ℕ
op_rflags = 0x1E

abbrev pub op_wfi : ℕ
op_wfi = 0x1F

abbrev pub op_lui : ℕ
op_lui = 0x20

abbrev pub op_jalr : ℕ
op_jalr = 0x21

abbrev pub op_cmpeq : ℕ
op_cmpeq = 0x22

abbrev pub op_cmpne : ℕ
op_cmpne = 0x23

abbrev pub op_cmplt : ℕ
op_cmplt = 0x24

abbrev pub op_cmple : ℕ
op_cmple = 0x25

abbrev pub op_cmpltu : ℕ
op_cmpltu = 0x26

abbrev pub op_cmpleu : ℕ
op_cmpleu = 0x27

abbrev pub op_bset : ℕ
op_bset = 0x28

abbrev pub op_bclr : ℕ
op_bclr = 0x29

abbrev pub op_btest : ℕ
op_btest = 0x2A

abbrev pub op_loadb : ℕ
op_loadb = 0x2B

abbrev pub op_storeb : ℕ
op_storeb = 0x2C

abbrev pub op_divu : ℕ
op_divu = 0x2D

abbrev pub op_rem : ℕ
op_rem = 0x2E

abbrev pub op_remu : ℕ
op_remu = 0x2F
