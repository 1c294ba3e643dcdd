-- ===== src/Sim/Mpu/Regions.antt =====
-- When mpu_check of simulator/sim.c lets an access pass.
use oxalyn.Base.{
  ℕ, zero, suc, ◌+◌, ◌-◌, ◌%◌, ◌≤◌, ◌<◌, ◌≡◌, refl, sym, ap, ◌∙◌, ◌⊎◌, inl, inr, Bool, true, false,
  not, ◌&&◌, ltb, ◌==◌, bit_and, if◌then◌else◌, has, shr, Bool-cases, arith, subst,
}
use oxalyn.Sim.Index
use oxalyn.Sim.Priv
use oxalyn.Sim.State.{Cpu}
use oxalyn.Sim.Mpu.{Mode, mode_bit, region_check, mpu_loop, mpu_check}

-- Region `n` is set up and covers the address.
abbrev pub covers : Cpu → ℕ → ℕ → Bool
covers c addr n =
    let mask = c.csr (Index.mpu_mask n) in
    not (mask == 0) && bit_and addr mask == bit_and (c.csr (Index.mpu_base n)) mask

-- Region `n` gives the right to the access, and to the privilege.
abbrev pub grants : Cpu → Mode → ℕ → Bool
grants c mode n =
    let perm = c.csr (Index.mpu_perm n) in
    not (ltb (shr perm 3 % 4) c.priv) && has perm (mode_bit mode)

-- The first region of those from `from` on that covers the address decides.
abbrev Decided : Cpu → ℕ → Mode → ℕ → Type 0
Decided c addr mode from =
    ((n : ℕ) × (from ≤ n)
      × (n < 8)
      × (covers c addr n ≡ true)
      × (grants c mode n ≡ true)
      × ((m : ℕ) → from ≤ m → m < n → covers c addr m ≡ false))
    ⊎ ((c.priv ≡ Priv.machine) × ((m : ℕ) → from ≤ m → m < 8 → covers c addr m ≡ false))

region_check-grants :
    (c : Cpu) (mode : Mode) (n : ℕ)
    → (region_check c mode (c.csr (Index.mpu_perm n))).0 ≡ true
    → grants c mode n ≡ true
unfolding region_check
region_check-grants c mode n h = ground arith

from_next :
    (c : Cpu) (addr from m : ℕ)
    → covers c addr from ≡ false
    → from ≤ m
    → (from + 1 ≤ m → covers c addr m ≡ false)
    → covers c addr m ≡ false
from_next c addr from m skip p k = elim (Bool-cases (m == from)) [
  | inl e ↦
      let same : m ≡ from = ground arith in subst (λ m. covers c addr m ≡ false) (sym same) skip
  | inr e ↦ k (ground arith)
]

-- The decision from one region on, if it is not the one that covers the address.
later :
    (c : Cpu) (addr : ℕ) (mode : Mode) (from : ℕ)
    → covers c addr from ≡ false
    → Decided c addr mode (from + 1)
    → Decided c addr mode from
later c addr mode from skip (inl (n, lo, hi, cov, gr, first)) =
    inl (n, omega arith, hi, cov, gr, λ m p q. from_next c addr from m skip p (λ r. first m r q))
later c addr mode from skip (inr (priv, rest)) =
    inr (priv, λ m p q. from_next c addr from m skip p (λ r. rest m r q))

-- One round of the loop, at the region `from`.
mpu_loop-step :
    (left from : ℕ) (c : Cpu) (addr : ℕ) (mode : Mode)
    → 8 - suc left ≡ from
    → mpu_loop (suc left) c addr mode ≡ (
        if covers c addr from
        then region_check c mode (c.csr (Index.mpu_perm from))
        else mpu_loop left c addr mode)
unfolding mpu_loop
mpu_loop-step left from c addr mode e = elim (Bool-cases (c.csr (Index.mpu_mask from) == 0)) [
  | inl off ↦ rw (e, off) refl
  | inr on ↦
      elim (Bool-cases (
        bit_and addr (c.csr (Index.mpu_mask from))
        == bit_and (c.csr (Index.mpu_base from)) (c.csr (Index.mpu_mask from)))) [
          | inl hit ↦ rw (e, on, hit) refl
          | inr miss ↦ rw (e, on, miss) refl
        ]
]

mpu_loop-Decided :
    (left from : ℕ) (c : Cpu) (addr : ℕ) (mode : Mode)
    → from + left ≡ 8
    → (mpu_loop left c addr mode).0 ≡ true
    → Decided c addr mode from
unfolding mpu_loop
mpu_loop-Decided zero from c addr mode e h = inr (ground arith, λ m p q. absurd (omega arith))
mpu_loop-Decided (suc left) from c addr mode e h =
    let step = mpu_loop-step left from c addr mode (omega arith) in
    let passes = ap (λ r. r.0) (sym step) ∙ h in
    elim (Bool-cases (covers c addr from)) [
      | inl cov ↦ inl (
        from,
        omega arith,
        omega arith,
        cov,
        region_check-grants c mode from (rw cov at passes),
        λ m p q. absurd (omega arith),
      )
      | inr skip ↦
          later c addr mode from skip
            (mpu_loop-Decided left (from + 1) c addr mode (omega arith) (rw skip at passes))
    ]

-- mpu_check lets an access pass only if the first region that is set up and covers the address
-- grants it to the privilege, or if none covers it and the machine is in machine mode.
mpu_check-grants :
    (c : Cpu) (addr : ℕ) (mode : Mode)
    → (mpu_check c addr mode).0 ≡ true
    → ((n : ℕ) × (n < 8)
        × (covers c addr n ≡ true)
        × (grants c mode n ≡ true)
        × ((m : ℕ) → m < n → covers c addr m ≡ false))
      ⊎ ((c.priv ≡ Priv.machine) × ((m : ℕ) → m < 8 → covers c addr m ≡ false))
unfolding mpu_check
mpu_check-grants c addr mode h = elim (mpu_loop-Decided 8 0 c addr mode refl h) [
  | inl (n, lo, hi, cov, gr, first) ↦ inl (n, hi, cov, gr, λ m q. first m (omega arith) q)
  | inr (priv, rest) ↦ inr (priv, λ m q. rest m (omega arith) q)
]
