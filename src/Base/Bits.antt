-- ===== src/Base/Bits.antt =====
-- The bit operations at variables: one law for the lowest digit, then masks of low bits, single
-- bits, and complements, for every width.
use Prim.Native.Nat.{
  ℕ, zero, suc, ◌+◌, ◌-◌, ◌*◌, ◌/◌, ◌%◌, ◌^◌, ◌≤◌, ◌<◌, min, max, bit_and, bit_or, bit_xor, digits,
  bitwise, bit_and-bitwise, bit_or-bitwise, bit_xor-bitwise, differ,
}
use native.Mathlib.Nat.{pow-suc, one-le-pow, div-add-mod, mod-eq_of_lt}
use mathlib.Core.Path.{◌≡◌, refl, ap}
use native.Mathlib.Omega.{arith}
use oxalyn.Base.Tests.{◌==◌}
use oxalyn.Base.Words.{has}

-- The library's operations run over the digits with fuel. With as much fuel as the first operand,
-- or more, the result is the same.
module _ (last : ℕ → ℕ) (op : ℕ → ℕ → ℕ) where
  settle :
      (bound fuel x y : ℕ)
      → fuel ≤ bound
      → x ≤ fuel
      → digits last op fuel x y ≡ digits last op x x y
  settle zero zero zero y below enough = refl
  settle zero zero (suc x) y below enough = absurd (omega arith)
  settle zero (suc fuel) x y below enough = absurd (omega arith)
  settle (suc bound) zero zero y below enough = refl
  settle (suc bound) zero (suc x) y below enough = absurd (omega arith)
  settle (suc bound) (suc fuel) zero y below enough = refl
  settle (suc bound) (suc fuel) (suc x) y below enough =
      let half = suc x / 2 in
      rw
        (
          settle bound fuel half (y / 2) (omega arith) (omega arith),
          settle bound x half (y / 2) (omega arith) (omega arith),
        )
        refl

  -- The lowest digit apart from the others, where `last` is the operation at 0.
  lowest_digit :
      ((y : ℕ) → last y ≡ last (y / 2) * 2 + op 0 (y % 2))
      → (x y : ℕ) → bitwise last op x y ≡ bitwise last op (x / 2) (y / 2) * 2 + op (x % 2) (y % 2)
  lowest_digit at_zero zero y = at_zero y
  lowest_digit at_zero (suc x) y =
      omega (arith, settle x x (suc x / 2) (y / 2) (omega arith) (omega arith))

pub bit_and_step : (x y : ℕ) → bit_and x y ≡ bit_and (x / 2) (y / 2) * 2 + min (x % 2) (y % 2)
bit_and_step x y = simp bit_and-bitwise (lowest_digit (λ t. 0) min (λ t. omega arith) x y)

pub bit_or_step : (x y : ℕ) → bit_or x y ≡ bit_or (x / 2) (y / 2) * 2 + max (x % 2) (y % 2)
bit_or_step x y = simp bit_or-bitwise (lowest_digit (λ t. t) max (λ t. omega arith) x y)

differ_lem : (x y : ℕ) → x < 2 → y < 2 → differ x y ≡ (x + y) % 2
differ_lem zero zero p q = refl
differ_lem zero (suc zero) p q = refl
differ_lem zero (suc (suc y)) p q = absurd (omega arith)
differ_lem (suc zero) zero p q = refl
differ_lem (suc zero) (suc zero) p q = refl
differ_lem (suc zero) (suc (suc y)) p q = absurd (omega arith)
differ_lem (suc (suc x)) y p q = absurd (omega arith)

pub bit_xor_step : (a b : ℕ) → bit_xor a b ≡ bit_xor (a / 2) (b / 2) * 2 + (a % 2 + b % 2) % 2
bit_xor_step a b = simp bit_xor-bitwise (
    omega (
      arith,
      lowest_digit (λ t. t) differ
          (λ t. omega (arith, differ_lem 0 (t % 2) (omega arith) (omega arith))) a b,
      differ_lem (a % 2) (b % 2) (omega arith) (omega arith),
    ))

-- Bit `k` of a word, counted from the lowest.
unfoldable pub bit : ℕ → ℕ → ℕ
bit zero a = a % 2
bit (suc k) a = bit k (a / 2)

pub bit-lt : (k a : ℕ) → bit k a < 2
unfolding bit
bit-lt zero a = omega arith
bit-lt (suc k) a = bit-lt k (a / 2)

pub bit-bit_and : (k a b : ℕ) → bit k (bit_and a b) ≡ min (bit k a) (bit k b)
unfolding bit
bit-bit_and zero a b = omega (arith, bit_and_step a b)
bit-bit_and (suc k) a b =
    let e : bit_and a b / 2 ≡ bit_and (a / 2) (b / 2) = omega (arith, bit_and_step a b) in
    rw e (bit-bit_and k (a / 2) (b / 2))

pub bit-bit_or : (k a b : ℕ) → bit k (bit_or a b) ≡ max (bit k a) (bit k b)
unfolding bit
bit-bit_or zero a b = omega (arith, bit_or_step a b)
bit-bit_or (suc k) a b =
    let e : bit_or a b / 2 ≡ bit_or (a / 2) (b / 2) = omega (arith, bit_or_step a b) in
    rw e (bit-bit_or k (a / 2) (b / 2))

-- A mask bounds what is left.
pub bit_and-le : (n a b : ℕ) → a ≤ n → bit_and a b ≤ b
bit_and-le n zero b h = omega (arith, bit_and-bitwise 0 b)
bit_and-le zero (suc a) b h = absurd (omega arith)
bit_and-le (suc n) (suc a) b h =
    omega (arith, bit_and_step (suc a) b, bit_and-le n (suc a / 2) (b / 2) (omega arith))

pub bit_and-zero : (x : ℕ) → bit_and x 0 ≡ 0
bit_and-zero x = omega (arith, bit_and-le x x 0 (omega arith))

-- `x & (1 << k)` keeps bit `k` alone.
pub bit_and-pow : (k a : ℕ) → bit_and a (2 ^ k) ≡ bit k a * 2 ^ k
unfolding bit
bit_and-pow zero a = omega (arith, bit_and_step a 1, bit_and-zero (a / 2))
bit_and-pow (suc k) a =
    let half : 2 ^ suc k / 2 ≡ 2 ^ k = omega (arith, pow-suc 2 k) in
    let low : 2 ^ suc k % 2 ≡ 0 = omega (arith, pow-suc 2 k) in
    rw (bit_and_step a (2 ^ suc k), half, low, bit_and-pow k (a / 2))
      (omega (arith, ap (λ (t : ℕ). bit k (a / 2) * t) (pow-suc 2 k)))

-- `if (x & (1 << k))` asks for bit `k`.
pub has-pow : (k a : ℕ) → has a (2 ^ k) ≡ (bit k a == 1)
has-pow k a = ground (arith, bit_and-pow k a, bit-lt k a, one-le-pow k 2)

mod_double : (a p : ℕ) → 1 ≤ p → a % (p * 2) ≡ a / 2 % p * 2 + a % 2
mod_double a p h = grind (arith, div-add-mod (a / 2) p)

-- A mask and its complement split a word of `n` bits.
pub bit_and-not : (n a m : ℕ) → m < 2 ^ n → bit_and a (2 ^ n - 1 - m) + bit_and a m ≡ a % 2 ^ n
bit_and-not zero a m h = let e : m ≡ 0 = omega arith in rw e (omega (arith, bit_and-zero a))
bit_and-not (suc n) a m h =
    let half : (2 ^ suc n - 1 - m) / 2 ≡ 2 ^ n - 1 - m / 2 = omega (arith, pow-suc 2 n) in
    let rest = bit_and-not n (a / 2) (m / 2) (omega (arith, pow-suc 2 n)) in
    let low : (2 ^ suc n - 1 - m) % 2 ≡ 1 - m % 2 = omega (arith, pow-suc 2 n) in
    rw (bit_and_step a (2 ^ suc n - 1 - m), half, low, pow-suc 2 n)
      (omega (arith, bit_and_step a m, rest, mod_double a (2 ^ n) (one-le-pow n 2 (omega arith))))

bit_and-itself_bound : (bound x : ℕ) → x ≤ bound → bit_and x x ≡ x
bit_and-itself_bound bound zero below = refl
bit_and-itself_bound zero (suc x) below = absurd (omega arith)
bit_and-itself_bound (suc bound) (suc x) below =
    omega
      (arith, bit_and_step (suc x) (suc x), bit_and-itself_bound bound (suc x / 2) (omega arith))

-- A word without its own bits.
pub bit_and-own_complement : (n x : ℕ) → x < 2 ^ n → bit_and x (2 ^ n - 1 - x) ≡ 0
bit_and-own_complement n x h =
    let whole : x % 2 ^ n ≡ x = mod-eq_of_lt h in
    omega (arith, bit_and-not n x x h, bit_and-itself_bound x x (omega arith), whole)

pub bit_or-lt : (n a b : ℕ) → a < 2 ^ n → b < 2 ^ n → bit_or a b < 2 ^ n
bit_or-lt zero a b p q = let e : a ≡ 0 = omega arith in rw e (omega (arith, bit_or-bitwise 0 b))
bit_or-lt (suc n) a b p q = omega (
  arith,
  bit_or_step a b,
  pow-suc 2 n,
  bit_or-lt n (a / 2) (b / 2) (omega (arith, pow-suc 2 n)) (omega (arith, pow-suc 2 n)),
)

pub bit_xor-lt : (n a b : ℕ) → a < 2 ^ n → b < 2 ^ n → bit_xor a b < 2 ^ n
bit_xor-lt zero a b p q = let e : a ≡ 0 = omega arith in rw e (omega (arith, bit_xor-bitwise 0 b))
bit_xor-lt (suc n) a b p q = omega (
  arith,
  bit_xor_step a b,
  pow-suc 2 n,
  bit_xor-lt n (a / 2) (b / 2) (omega (arith, pow-suc 2 n)) (omega (arith, pow-suc 2 n)),
)
