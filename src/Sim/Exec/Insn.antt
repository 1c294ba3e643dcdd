-- ===== src/Sim/Exec/Insn.antt =====
-- The fields of an instruction word, as execute() of simulator/sim.c takes them apart.
use oxalyn.Base.{ℕ, ◌%◌, bit_or, if◌then◌else◌, has, shr}

pub record Insn : Type 0 where
  pub opcode : ℕ
  pub fd : ℕ
  pub fa : ℕ
  pub fb : ℕ
  pub imm : ℕ

-- The 11-bit immediate as the pattern of an `int64_t`.
unfoldable pub sign_extend11 : ℕ → ℕ
sign_extend11 v = if has v 0x400 then bit_or v 0xFFFFFFFFFFFFF800 else v

unfoldable pub decode : ℕ → Insn
unfolding sign_extend11
decode insn = record {
  opcode = shr insn 26 % 64;
  fd = shr insn 21 % 32;
  fa = shr insn 16 % 32;
  fb = shr insn 11 % 32;
  imm = sign_extend11 (insn % 2048);
}
