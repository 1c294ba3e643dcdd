-- ===== src/Sim/Exec/System.antt =====
-- The security extension and the remaining instructions of execute() in simulator/sim.c.
use oxalyn.Base.{
  ℕ, ◌*◌, ◌%◌, ◌^◌, true, List, [], ◌∷◌, Option, some, bit_and, bit_or, bit_xor, ◌==◌,
  if◌then◌else◌, add64, shl64, shr, not64, get_or,
}
use oxalyn.Sim.Priv
use oxalyn.Sim.Cause
use oxalyn.Sim.State.{Cpu, write_reg, flush}
use oxalyn.Sim.Trap.{trap, ecall, eret}
use oxalyn.Sim.Csr.{csr_read, csr_write}
use oxalyn.Sim.Exec.Insn.{Insn}

-- NOP and FENCE.
unfoldable pub exec_nop : Insn → Cpu → Option Cpu
exec_nop i c = some c

unfoldable pub exec_halt : Insn → Cpu → Option Cpu
unfolding flush
exec_halt i c = some (flush (record c { halted = true }))

unfoldable pub exec_rflags : Insn → Cpu → Option Cpu
exec_rflags i c = some (write_reg c i.fd (c.flags % 16))

unfoldable pub exec_ecall : Insn → Cpu → Option Cpu
exec_ecall i c = some (ecall c)

unfoldable pub exec_eret : Insn → Cpu → Option Cpu
exec_eret i c = some (eret c)

unfoldable pub exec_csrw : Insn → Cpu → Option Cpu
exec_csrw i c = some (csr_write c (i.imm % 64) (c.reg i.fd))

unfoldable pub exec_csrr : Insn → Cpu → Option Cpu
exec_csrr i c = let (v, c') = csr_read c (i.imm % 64) in some (write_reg c' i.fd v)

unfoldable pub exec_wfi : Insn → Cpu → Option Cpu
exec_wfi i c =
    if c.priv == Priv.user
    then some (trap c Cause.csr_priv)
    else some (record c { waiting_for_interrupt = true })

-- An instruction for machine mode only.
abbrev pub machine_mode : (Insn → Cpu → Option Cpu) → Insn → Cpu → Option Cpu
machine_mode f i c =
    let runs = f i c in if c.priv == Priv.machine then runs else some (trap c Cause.csr_priv)

unfoldable pub trng_next : ℕ → ℕ
trng_next l =
    let taps = bit_xor (bit_xor (bit_xor (shr l 63) (shr l 21)) (shr l 1)) l in
    bit_xor (shl64 l 1) (taps % 2)

unfoldable pub draw : Insn → Cpu → Option Cpu
unfolding trng_next
draw i c = let r = trng_next c.trng_lfsr in some (write_reg (record c { trng_lfsr = r }) i.fd r)

unfoldable pub exec_rand : Insn → Cpu → Option Cpu
exec_rand = machine_mode draw

-- The S-box of AES.
unfoldable pub aes_sbox : List ℕ
aes_sbox =
    0x63 ∷ 0x7c ∷ 0x77 ∷ 0x7b ∷ 0xf2 ∷ 0x6b ∷ 0x6f ∷ 0xc5 ∷ 0x30 ∷ 0x01 ∷ 0x67 ∷ 0x2b ∷ 0xfe ∷ 0xd7
    ∷ 0xab ∷ 0x76 ∷ 0xca ∷ 0x82 ∷ 0xc9 ∷ 0x7d ∷ 0xfa ∷ 0x59 ∷ 0x47 ∷ 0xf0 ∷ 0xad ∷ 0xd4 ∷ 0xa2
    ∷ 0xaf ∷ 0x9c ∷ 0xa4 ∷ 0x72 ∷ 0xc0 ∷ 0xb7 ∷ 0xfd ∷ 0x93 ∷ 0x26 ∷ 0x36 ∷ 0x3f ∷ 0xf7 ∷ 0xcc
    ∷ 0x34 ∷ 0xa5 ∷ 0xe5 ∷ 0xf1 ∷ 0x71 ∷ 0xd8 ∷ 0x31 ∷ 0x15 ∷ 0x04 ∷ 0xc7 ∷ 0x23 ∷ 0xc3 ∷ 0x18
    ∷ 0x96 ∷ 0x05 ∷ 0x9a ∷ 0x07 ∷ 0x12 ∷ 0x80 ∷ 0xe2 ∷ 0xeb ∷ 0x27 ∷ 0xb2 ∷ 0x75 ∷ 0x09 ∷ 0x83
    ∷ 0x2c ∷ 0x1a ∷ 0x1b ∷ 0x6e ∷ 0x5a ∷ 0xa0 ∷ 0x52 ∷ 0x3b ∷ 0xd6 ∷ 0xb3 ∷ 0x29 ∷ 0xe3 ∷ 0x2f
    ∷ 0x84 ∷ 0x53 ∷ 0xd1 ∷ 0x00 ∷ 0xed ∷ 0x20 ∷ 0xfc ∷ 0xb1 ∷ 0x5b ∷ 0x6a ∷ 0xcb ∷ 0xbe ∷ 0x39
    ∷ 0x4a ∷ 0x4c ∷ 0x58 ∷ 0xcf ∷ 0xd0 ∷ 0xef ∷ 0xaa ∷ 0xfb ∷ 0x43 ∷ 0x4d ∷ 0x33 ∷ 0x85 ∷ 0x45
    ∷ 0xf9 ∷ 0x02 ∷ 0x7f ∷ 0x50 ∷ 0x3c ∷ 0x9f ∷ 0xa8 ∷ 0x51 ∷ 0xa3 ∷ 0x40 ∷ 0x8f ∷ 0x92 ∷ 0x9d
    ∷ 0x38 ∷ 0xf5 ∷ 0xbc ∷ 0xb6 ∷ 0xda ∷ 0x21 ∷ 0x10 ∷ 0xff ∷ 0xf3 ∷ 0xd2 ∷ 0xcd ∷ 0x0c ∷ 0x13
    ∷ 0xec ∷ 0x5f ∷ 0x97 ∷ 0x44 ∷ 0x17 ∷ 0xc4 ∷ 0xa7 ∷ 0x7e ∷ 0x3d ∷ 0x64 ∷ 0x5d ∷ 0x19 ∷ 0x73
    ∷ 0x60 ∷ 0x81 ∷ 0x4f ∷ 0xdc ∷ 0x22 ∷ 0x2a ∷ 0x90 ∷ 0x88 ∷ 0x46 ∷ 0xee ∷ 0xb8 ∷ 0x14 ∷ 0xde
    ∷ 0x5e ∷ 0x0b ∷ 0xdb ∷ 0xe0 ∷ 0x32 ∷ 0x3a ∷ 0x0a ∷ 0x49 ∷ 0x06 ∷ 0x24 ∷ 0x5c ∷ 0xc2 ∷ 0xd3
    ∷ 0xac ∷ 0x62 ∷ 0x91 ∷ 0x95 ∷ 0xe4 ∷ 0x79 ∷ 0xe7 ∷ 0xc8 ∷ 0x37 ∷ 0x6d ∷ 0x8d ∷ 0xd5 ∷ 0x4e
    ∷ 0xa9 ∷ 0x6c ∷ 0x56 ∷ 0xf4 ∷ 0xea ∷ 0x65 ∷ 0x7a ∷ 0xae ∷ 0x08 ∷ 0xba ∷ 0x78 ∷ 0x25 ∷ 0x2e
    ∷ 0x1c ∷ 0xa6 ∷ 0xb4 ∷ 0xc6 ∷ 0xe8 ∷ 0xdd ∷ 0x74 ∷ 0x1f ∷ 0x4b ∷ 0xbd ∷ 0x8b ∷ 0x8a ∷ 0x70
    ∷ 0x3e ∷ 0xb5 ∷ 0x66 ∷ 0x48 ∷ 0x03 ∷ 0xf6 ∷ 0x0e ∷ 0x61 ∷ 0x35 ∷ 0x57 ∷ 0xb9 ∷ 0x86 ∷ 0xc1
    ∷ 0x1d ∷ 0x9e ∷ 0xe1 ∷ 0xf8 ∷ 0x98 ∷ 0x11 ∷ 0x69 ∷ 0xd9 ∷ 0x8e ∷ 0x94 ∷ 0x9b ∷ 0x1e ∷ 0x87
    ∷ 0xe9 ∷ 0xce ∷ 0x55 ∷ 0x28 ∷ 0xdf ∷ 0x8c ∷ 0xa1 ∷ 0x89 ∷ 0x0d ∷ 0xbf ∷ 0xe6 ∷ 0x42 ∷ 0x68
    ∷ 0x41 ∷ 0x99 ∷ 0x2d ∷ 0x0f ∷ 0xb0 ∷ 0x54 ∷ 0xbb ∷ 0x16 ∷ []

-- The byte of `a` at shift `s`, through the S-box.
abbrev sub_byte : ℕ → ℕ → ℕ
sub_byte a s = get_or aes_sbox (shr a s % 256) 0

unfoldable pub sub_bytes : ℕ → ℕ
unfolding aes_sbox
sub_bytes a =
    let high = bit_or (sub_byte a 56 * 2 ^ 56) (sub_byte a 48 * 2 ^ 48) in
    let high = bit_or high (bit_or (sub_byte a 40 * 2 ^ 40) (sub_byte a 32 * 2 ^ 32)) in
    let low = bit_or (sub_byte a 24 * 2 ^ 24) (sub_byte a 16 * 2 ^ 16) in
    bit_or high (bit_or low (bit_or (sub_byte a 8 * 2 ^ 8) (sub_byte a 0)))

unfoldable pub substitute : Insn → Cpu → Option Cpu
unfolding sub_bytes
substitute i c = some (write_reg c i.fd (sub_bytes (c.reg i.fa)))

unfoldable pub exec_aese : Insn → Cpu → Option Cpu
exec_aese = machine_mode substitute

-- `(a >> k) | (a << (64 - k))`
abbrev rotate : ℕ → ℕ → ℕ → ℕ
rotate a k j = bit_or (shr a k) (shl64 a j)

unfoldable pub hash_step : ℕ → ℕ → ℕ
hash_step a b =
    let sig = bit_xor (bit_xor (rotate a 28 36) (rotate a 34 30)) (rotate a 39 25) in
    let ch = bit_xor (bit_and a b) (bit_and (not64 a) (shr b 1)) in
    let maj = bit_xor (bit_xor (bit_and a b) (bit_and a (shr b 2))) (bit_and b (shr b 2)) in
    add64 (add64 sig ch) maj

unfoldable pub mix : Insn → Cpu → Option Cpu
unfolding hash_step
mix i c = some (write_reg c i.fd (hash_step (c.reg i.fa) (c.reg i.fb)))

unfoldable pub exec_hash : Insn → Cpu → Option Cpu
exec_hash = machine_mode mix
