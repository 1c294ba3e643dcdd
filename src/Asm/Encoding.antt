-- ===== src/Asm/Encoding.antt =====
-- The instruction words that encode() of asm.c builds, as execute() of simulator/sim.c takes them
-- apart.
use oxalyn.Base.{ℕ, ◌+◌, ◌*◌, ◌/◌, ◌%◌, ◌^◌, ◌≡◌, ◌<◌, refl, arith, bit_and}
use oxalyn.Base.Bits.{bit_and-not, bit_and-zero}
use oxalyn.Base.Digits.{bit_or-multiple}
use oxalyn.Asm.{encode, shl32}
use oxalyn.Sim.Exec.Insn.{decode, sign_extend11}

bit_and-imm11 : (x : ℕ) → bit_and x 0x7FF ≡ x % 2048
bit_and-imm11 x = omega (arith, bit_and-not 11 x 0 (omega arith), bit_and-zero x)

pub encode-fields :
    (op fd fa fb imm : ℕ)
    → op < 64
    → fd < 32
    → fa < 32
    → fb < 32
    → encode op fd fa fb imm ≡ op * 2 ^ 26 + fd * 2 ^ 21 + fa * 2 ^ 16 + fb * 2 ^ 11 + imm % 2048
unfolding encode
encode-fields op fd fa fb imm hop hfd hfa hfb =
    let e0 : shl32 op 26 ≡ op * 2 ^ 26 = omega arith in
    let e1 : shl32 fd 21 ≡ fd * 2 ^ 21 = omega arith in
    let e2 : shl32 fa 16 ≡ fa * 2 ^ 16 = omega arith in
    let e3 : shl32 fb 11 ≡ fb * 2 ^ 11 = omega arith in
    let o1 = bit_or-multiple 26 (op * 2 ^ 26) op (fd * 2 ^ 21) refl (omega arith) in
    let o2 =
      bit_or-multiple 21 (op * 2 ^ 26 + fd * 2 ^ 21) (op * 32 + fd) (fa * 2 ^ 16) (omega arith)
        (omega arith) in
    let o3 =
      bit_or-multiple 16 (op * 2 ^ 26 + fd * 2 ^ 21 + fa * 2 ^ 16) (op * 1024 + fd * 32 + fa)
        (fb * 2 ^ 11) (omega arith) (omega arith) in
    let o4 =
      bit_or-multiple 11 (op * 2 ^ 26 + fd * 2 ^ 21 + fa * 2 ^ 16 + fb * 2 ^ 11)
        (op * 32768 + fd * 1024 + fa * 32 + fb) (imm % 2048) (omega arith) (omega arith) in
    rw (e0, e1, e2, e3, bit_and-imm11 imm, o1, o2, o3, o4) refl

-- What a word is taken apart into: the operands it was built from, with the immediate cut to
-- eleven bits and read as signed.
pub decode-encode :
    (op fd fa fb imm : ℕ)
    → op < 64
    → fd < 32
    → fa < 32
    → fb < 32
    → decode (encode op fd fa fb imm)
      ≡ record { opcode = op; fd = fd; fa = fa; fb = fb; imm = sign_extend11 (imm % 2048) }
unfolding decode
decode-encode op fd fa fb imm hop hfd hfa hfb =
    let w = encode op fd fa fb imm in
    let e : w ≡ op * 2 ^ 26 + fd * 2 ^ 21 + fa * 2 ^ 16 + fb * 2 ^ 11 + imm % 2048 =
      encode-fields op fd fa fb imm hop hfd hfa hfb in
    let p0 : w / 2 ^ 26 % 64 ≡ op = omega arith in
    let p1 : w / 2 ^ 21 % 32 ≡ fd = omega arith in
    let p2 : w / 2 ^ 16 % 32 ≡ fa = omega arith in
    let p3 : w / 2 ^ 11 % 32 ≡ fb = omega arith in
    let p4 : w % 2048 ≡ imm % 2048 = omega arith in rw (p0, p1, p2, p3, p4) refl
