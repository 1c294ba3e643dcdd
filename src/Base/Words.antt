-- ===== src/Base/Words.antt =====
-- Machine words as native numbers: casts, shifts, and the logic of C at 32 and 64 bits.
use Prim.Native.Nat.{ℕ, ◌+◌, ◌-◌, ◌*◌, ◌/◌, ◌%◌, ◌^◌, bit_and}
use mathlib.Core.Bool.{Bool, true, false}
use oxalyn.Base.Tests.{ltb, ◌==◌, if◌then◌else◌}

abbrev pub u8 : ℕ → ℕ
u8 x = x % 2 ^ 8

abbrev pub u32 : ℕ → ℕ
u32 x = x % 2 ^ 32

abbrev pub u64 : ℕ → ℕ
u64 x = x % 2 ^ 64

-- `uint64_t` arithmetic. The modulus is added first, since `-` on ℕ stops at 0.
abbrev pub add64 : ℕ → ℕ → ℕ
add64 a b = u64 (a + b)

abbrev pub sub64 : ℕ → ℕ → ℕ
sub64 a b = u64 (a + 2 ^ 64 - b)

abbrev pub add32 : ℕ → ℕ → ℕ
add32 a b = u32 (a + b)

-- x << k and x >> k in `uint64_t`.
abbrev pub shl64 : ℕ → ℕ → ℕ
shl64 x k = u64 (x * 2 ^ k)

abbrev pub shr : ℕ → ℕ → ℕ
shr x k = x / 2 ^ k

-- ~m, of a 64-bit and of a 32-bit operand. A 32-bit complement that meets a 64-bit word is
-- extended by zeroes, so it clears the upper half of the word too.
abbrev pub not64 : ℕ → ℕ
not64 m = 2 ^ 64 - 1 - m

abbrev pub not32 : ℕ → ℕ
not32 m = 2 ^ 32 - 1 - m

-- `if (x & m)`.
abbrev pub has : ℕ → ℕ → Bool
has x m = if bit_and x m == 0 then false else true

-- Bit 63 of a word, as the `>> 63` of the source tests it.
abbrev pub sign_bit : ℕ → Bool
sign_bit x = if shr x 63 == 0 then false else true

-- A word whose lower 32 bits are read as an `int32_t`, widened to 64 bits.
abbrev pub sext32 : ℕ → ℕ
sext32 x = if ltb (u32 x) (2 ^ 31) then u32 x else u32 x + (2 ^ 64 - 2 ^ 32)
