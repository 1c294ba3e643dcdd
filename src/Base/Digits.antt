-- ===== src/Base/Digits.antt =====
-- Words put together from digits that do not overlap.
use Prim.Native.Nat.{ℕ, zero, suc, ◌+◌, ◌*◌, ◌/◌, ◌^◌, ◌≤◌, ◌<◌, bit_or}
use native.Mathlib.Nat.{pow-suc}
use mathlib.Core.Path.{◌≡◌, refl, ap}
use native.Mathlib.Omega.{arith}
use oxalyn.Base.Bits.{bit_or_step}

bit_or-zero : (bound x : ℕ) → x ≤ bound → bit_or x 0 ≡ x
bit_or-zero bound zero h = refl
bit_or-zero zero (suc x) h = absurd (omega arith)
bit_or-zero (suc bound) (suc x) h =
    omega (arith, bit_or_step (suc x) 0, bit_or-zero bound (suc x / 2) (omega arith))

-- Digits that do not overlap add up.
pub bit_or-low : (k a x : ℕ) → x < 2 ^ k → bit_or (a * 2 ^ k) x ≡ a * 2 ^ k + x
bit_or-low zero a x h =
    let e : x ≡ 0 = omega arith in rw e (omega (arith, bit_or-zero (a * 1) (a * 1) (omega arith)))
bit_or-low (suc k) a x h =
    let whole : a * 2 ^ suc k ≡ a * 2 ^ k * 2 =
      omega (arith, ap (λ (t : ℕ). a * t) (pow-suc 2 k)) in
    let ih = bit_or-low k a (x / 2) (omega (arith, pow-suc 2 k)) in
    let half : a * 2 ^ k * 2 / 2 ≡ a * 2 ^ k = omega arith in
    rw (whole, bit_or_step (a * 2 ^ k * 2) x, half, ih) (omega arith)

pub bit_or-multiple : (k m a x : ℕ) → m ≡ a * 2 ^ k → x < 2 ^ k → bit_or m x ≡ m + x
bit_or-multiple k m a x e h = rw e (bit_or-low k a x h)
