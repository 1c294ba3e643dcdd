-- ===== src/Asm.antt =====
-- asm.c: the assembler. Here the instruction word and the words that load a constant; a register is
-- its number, an `int32_t` operand of `encode` is its 32-bit pattern, and `int64_t` is an integer.
pub mod Op
pub mod Text
pub mod State
pub mod Branches
pub mod Line
pub mod Pass
pub mod Growth
pub mod Sizes
pub mod Passes
pub mod Elf
mod Tests
pub mod Encoding
pub mod Constant
pub mod Movi
use oxalyn.Base.{
  ℕ, zero, suc, ◌+◌, ◌-◌, ◌*◌, ◌/◌, ◌%◌, ◌^◌, Bool, not, ◌&&◌, ◌||◌, true, false, Option, none,
  some, List, [], ◌∷◌, ◌++◌, ◌==◌, ltb, leb, if◌then◌else◌, bit_or, bit_and, u32, shr,
}
use oxalyn.Asm.Op.{op_or, op_shl, op_li}
use oxalyn.Base.Int.{ℤ, pos, negsuc, ltb_ℤ, unsigned64}

abbrev pub shl32 : ℕ → ℕ → ℕ
shl32 x k = u32 (x * 2 ^ k)

unfoldable pub encode : ℕ → ℕ → ℕ → ℕ → ℕ → ℕ
encode opcode fd fa fb imm =
    let imm11 = bit_and imm 0x7FF in
    bit_or (bit_or (bit_or (bit_or (shl32 opcode 26) (shl32 fd 21)) (shl32 fa 16)) (shl32 fb 11))
      imm11

-- `min <= signed_value && signed_value <= max` for the two's complement of `bits` bits.
abbrev pub fits_bits : ℤ → ℕ → Bool
fits_bits (pos n) bits = ltb n (2 ^ (bits - 1))
fits_bits (negsuc n) bits = ltb n (2 ^ (bits - 1))

-- The loop from `bytes` on, with `left` rounds to go.
unfoldable pub movi_bytes_from : ℕ → ℕ → ℤ → ℕ
movi_bytes_from zero bytes v = 8
movi_bytes_from (suc left) bytes v =
    let rest = movi_bytes_from left (bytes + 1) v in if fits_bits v (bytes * 8) then bytes else rest

unfoldable pub movi_bytes : ℤ → ℕ
unfolding movi_bytes_from
movi_bytes v = movi_bytes_from 7 1 v

unfoldable pub movi_words : ℕ → ℕ
movi_words bytes = if bytes == 0 then 1 else 1 + 3 * (bytes - 1)

abbrev pub byte_at : ℕ → ℕ → ℕ
byte_at value i = value / 2 ^ (i * 8) % 2 ^ 8

-- The words for the bytes below `i`, after others.
unfoldable pub movi_rest : ℕ → ℕ → ℕ → ℕ → List ℕ
unfolding encode
movi_rest rd temp value zero = []
movi_rest rd temp value (suc i) =
    encode op_shl rd rd 0 8
    ∷ encode op_li temp 0 0 (byte_at value i)
    ∷ encode op_or rd rd temp 0
    ∷ movi_rest rd temp value i

-- The words that emit_movi_words puts into the program in the second pass; `none` is an error, and
-- `room` the number of words that the program can still take. The most significant byte is first.
-- The register that the later bytes pass through.
abbrev pub movi_temp : ℕ → ℕ
movi_temp rd = if rd == 27 then 26 else 27

unfoldable pub emit_movi_words : ℕ → ℤ → ℕ → ℕ → Option (List ℕ)
unfolding movi_rest movi_words encode
emit_movi_words rd signed_value zero room = none
emit_movi_words rd signed_value (suc i) room =
    let value = unsigned64 signed_value in
    let temp = movi_temp rd in
    if ltb 8 (suc i) || ltb room (movi_words (suc i))
    then none
    else some (encode op_li rd 0 0 (byte_at value i) ∷ movi_rest rd temp value i)
