-- ===== src/Asm/Movi.antt =====
-- MOVI of asm.c from the number in the source to the register of the machine.
use oxalyn.Base.{
  ℕ, zero, suc, ◌+◌, ◌-◌, ◌*◌, ◌%◌, ◌^◌, ◌≡◌, ◌≢◌, ◌<◌, ◌≤◌, refl, sym, ◌∙◌, subst, arith, inl, inr,
  Bool-cases, some, List, ◌∷◌, ltb,
}
use native.Mathlib.Nat.{one-le-pow, pow-le-pow_right, mod-eq_of_lt, mul-add-mod_self_right}
use oxalyn.Base.Int.{ℤ, pos, negsuc, unsigned64}
use oxalyn.Asm.Op.{op_li}
use oxalyn.Asm.{
  encode, movi_rest, emit_movi_words, movi_bytes, movi_bytes_from, movi_words, movi_temp, byte_at,
  fits_bits,
}
use oxalyn.Asm.Constant.{
  RunLoads, Loads, Loads-trans, run_words-next, set_reg, set_reg_self, set_reg_ne, set_reg_rest,
  execute_li, movi_rest-run, pow_byte,
}
use oxalyn.Sim.State.{Cpu}

-- The words for `suc i` bytes leave those bytes of the number in the register.
pub emit_movi_words-run :
    (rd : ℕ) (v : ℤ) (i room : ℕ) (c : Cpu)
    → rd < 32
    → rd ≢ 0
    → i < 8
    → movi_words (suc i) ≤ room
    → (ws : List ℕ) × (emit_movi_words rd v (suc i) room ≡ some ws)
      × RunLoads rd (movi_temp rd) (unsigned64 v % 2 ^ (suc i * 8)) c ws
unfolding emit_movi_words
emit_movi_words-run rd v i room c r h0 hi fits =
    let x = unsigned64 v in
    let temp = movi_temp rd in
    let t : temp < 32 = ground arith in
    let h1 : temp ≢ 0 = ground arith in
    let h2 : rd ≢ temp = ground arith in
    let b = byte_at x i in
    let d = set_reg c rd b in
    let w = encode op_li rd 0 0 b in
    let first : d.reg rd ≡ b = set_reg_self c rd b h0 in
    let (z, runs, loads) = movi_rest-run rd temp x i 1 d r t h0 h1 h2 (omega arith) first in
    let start : Loads rd temp b c d =
      (first, (λ j p q k. set_reg_ne c rd b j p q), set_reg_rest c rd b c.reg) in
    let count : suc i * 8 ≡ (i + 1) * 8 = omega arith in
    (
      w ∷ movi_rest rd temp x i,
      ground arith,
      (
        z,
        run_words-next w (movi_rest rd temp x i) c d (execute_li rd b c r (omega arith)) ∙ runs,
        rw count (Loads-trans rd temp b (x % 2 ^ ((i + 1) * 8)) c d z start loads),
      ),
    )

-- How far a number is from 0, or from -1.
abbrev pub magnitude : ℤ → ℕ
magnitude (pos n) = n
magnitude (negsuc n) = n

fits_bits-magnitude : (v : ℤ) (bits : ℕ) → fits_bits v bits ≡ ltb (magnitude v) (2 ^ (bits - 1))
fits_bits-magnitude (pos n) bits = refl
fits_bits-magnitude (negsuc n) bits = refl

-- A count of bytes that is enough for the number.
abbrev Enough : ℤ → ℕ → Type 0
Enough v bytes = (1 ≤ bytes) × (bytes ≤ 8) × (magnitude v < 2 ^ (bytes * 8 - 1))

movi_bytes_from-Enough :
    (left bytes : ℕ) (v : ℤ)
    → 1 ≤ bytes
    → left + bytes ≡ 8
    → magnitude v < 2 ^ 63
    → Enough v (movi_bytes_from left bytes v)
unfolding movi_bytes_from
movi_bytes_from-Enough zero bytes v low count h = (omega arith, omega arith, h)
movi_bytes_from-Enough (suc left) bytes v low count h =
    elim (Bool-cases (fits_bits v (bytes * 8))) [
      | inl e ↦
          let m : magnitude v < 2 ^ (bytes * 8 - 1) =
            ground (arith, sym (fits_bits-magnitude v (bytes * 8)) ∙ e) in
          rw e (low, omega arith, m)
      | inr e ↦ rw e (movi_bytes_from-Enough left (bytes + 1) v (omega arith) (omega arith) h)
    ]

-- What a load of `k` bytes leaves: the number itself, and of a negative one its low bytes, without
-- a sign.
abbrev pub loaded : ℤ → ℕ → ℕ
loaded (pos n) k = n
loaded (negsuc n) k = 2 ^ (k * 8) - 1 - n

complement_words : (p q n : ℕ) → n < p → 1 ≤ q → (q * p - 1 - n) % p ≡ p - 1 - n
complement_words p zero n h low = absurd (omega arith)
complement_words p (suc q) n h low =
    let e : suc q * p - 1 - n ≡ q * p + (p - 1 - n) = grind arith in
    rw (e, mul-add-mod_self_right q p (p - 1 - n)) (mod-eq_of_lt (omega arith))

word_bytes : (j k : ℕ) → j + k ≡ 8 → 2 ^ 64 ≡ 2 ^ (j * 8) * 2 ^ (k * 8)
word_bytes zero k e = let h : k ≡ 8 = omega arith in rw h refl
word_bytes (suc j) k e =
    word_bytes j (suc k) (omega arith) ∙ rw (pow_byte j, pow_byte k) (grind arith)

complement_bytes :
    (k n : ℕ) → k ≤ 8 → n < 2 ^ (k * 8) → (2 ^ 64 - 1 - n) % 2 ^ (k * 8) ≡ 2 ^ (k * 8) - 1 - n
complement_bytes k n h l =
    let q = 2 ^ ((8 - k) * 8) in
    let p = 2 ^ (k * 8) in
    let e : 2 ^ 64 ≡ q * p = word_bytes (8 - k) k (omega arith) in
    subst (λ (t : ℕ). (t - 1 - n) % p ≡ p - 1 - n) (sym e)
      (complement_words p q n l (one-le-pow ((8 - k) * 8) 2 (omega arith)))

below_bytes : (k n : ℕ) → k ≤ 8 → n < 2 ^ (k * 8 - 1) → (n < 2 ^ (k * 8)) × (n < 2 ^ 64)
below_bytes k n h l =
    let p = pow-le-pow_right {n = 2} (omega arith) {i = k * 8 - 1} {j = k * 8} (omega arith) in
    let q = pow-le-pow_right {n = 2} (omega arith) {i = k * 8 - 1} {j = 64} (omega arith) in
    (omega arith, omega arith)

low_bytes : (v : ℤ) (k : ℕ) → Enough v k → unsigned64 v % 2 ^ (k * 8) ≡ loaded v k
low_bytes (pos n) k (low, high, fits) =
    let (a, b) = below_bytes k n high fits in
    let e : n % 2 ^ 64 ≡ n = omega arith in rw e (mod-eq_of_lt a)
low_bytes (negsuc n) k (low, high, fits) =
    let (a, b) = below_bytes k n high fits in
    let e : n % 2 ^ 64 ≡ n = omega arith in rw e (complement_bytes k n high a)

-- Any count of bytes that is enough will do.
load-Enough :
    (rd : ℕ) (v : ℤ) (k room : ℕ) (c : Cpu)
    → rd < 32
    → rd ≢ 0
    → Enough v k
    → movi_words k ≤ room
    → (ws : List ℕ) × (emit_movi_words rd v k room ≡ some ws)
      × RunLoads rd (movi_temp rd) (loaded v k) c ws
load-Enough rd v zero room c r h0 (low, high, small) fits = absurd (omega arith)
load-Enough rd v (suc i) room c r h0 (low, high, small) fits =
    let (ws, e, (d, runs, (holds, others, rest))) =
      emit_movi_words-run rd v i room c r h0 (omega arith) fits in
    (ws, e, (d, runs, (holds ∙ low_bytes v (suc i) (low, high, small), others, rest)))

-- MOVI of a number that 64 bits hold, in a program with room for its words: the words are
-- written, and after a run of them the register holds what `loaded` says, the helper register may
-- have changed, and all else is as before.
pub movi-run :
    (rd : ℕ) (v : ℤ) (room : ℕ) (c : Cpu)
    → rd < 32
    → rd ≢ 0
    → magnitude v < 2 ^ 63
    → movi_words (movi_bytes v) ≤ room
    → (ws : List ℕ) × (emit_movi_words rd v (movi_bytes v) room ≡ some ws)
      × RunLoads rd (movi_temp rd) (loaded v (movi_bytes v)) c ws
unfolding movi_bytes
movi-run rd v room c r h0 h fits =
    load-Enough rd v (movi_bytes v) room c r h0 (movi_bytes_from-Enough 7 1 v (omega arith) refl h)
      fits
