-- ===== src/Sim/Trap/Mstatus.antt =====
-- MSTATUS, bit by bit, as a trap and the return from it write it.
use oxalyn.Base.{
  ℕ, ◌+◌, ◌*◌, ◌%◌, ◌≡◌, refl, bit_and, bit_or, has, shr, not32, not64, arith, if◌then◌else◌, ◌==◌,
  sym, ◌∙◌, Bool-cases, inl, inr,
}
use oxalyn.Base.Bits.{bit, bit-lt, bit-bit_and, bit-bit_or, has-pow}
use oxalyn.Sim.Status
use oxalyn.Sim.Trap.{enter_machine, enter_supervisor}

-- One mask laid over a word, at one bit.
bit-keep : (k a m : ℕ) → bit k m ≡ 1 → bit k (bit_and a m) ≡ bit k a
bit-keep k a m e = omega (arith, bit-bit_and k a m, bit-lt k a)

bit-drop : (k a m : ℕ) → bit k m ≡ 0 → bit k (bit_and a m) ≡ 0
bit-drop k a m e = omega (arith, bit-bit_and k a m, bit-lt k a)

bit-raise : (k a m : ℕ) → bit k m ≡ 1 → bit k (bit_or a m) ≡ 1
bit-raise k a m e = omega (arith, bit-bit_or k a m, bit-lt k a)

bit-leave : (k a m : ℕ) → bit k m ≡ 0 → bit k (bit_or a m) ≡ bit k a
bit-leave k a m e = omega (arith, bit-bit_or k a m, bit-lt k a)

mpp_of_bits : (x : ℕ) → shr x 3 % 4 ≡ bit 3 x + 2 * bit 4 x
unfolding bit
mpp_of_bits x = omega arith

module _ (p st : ℕ) where
  abbrev with_mpp : ℕ
  with_mpp = bit_or (bit_and st (not64 Status.mpp)) (p % 4 * 8)

  with_mpp-mie : bit 0 with_mpp ≡ bit 0 st
  unfolding bit
  with_mpp-mie = omega (
    arith,
    bit-bit_or 0 (bit_and st (not64 Status.mpp)) (p % 4 * 8),
    bit-bit_and 0 st (not64 Status.mpp),
  )

  with_mpp-mpp : bit 3 with_mpp + 2 * bit 4 with_mpp ≡ p % 4
  unfolding bit
  with_mpp-mpp = omega (
    arith,
    bit-bit_or 3 (bit_and st (not64 Status.mpp)) (p % 4 * 8),
    bit-bit_or 4 (bit_and st (not64 Status.mpp)) (p % 4 * 8),
    bit-bit_and 3 st (not64 Status.mpp),
    bit-bit_and 4 st (not64 Status.mpp),
  )

-- An enable bit saved and cleared on the way in, and restored on the way out, as the source does
-- it for MIE with MPIE and for SIE with SPIE.
abbrev saved : ℕ → ℕ → ℕ → ℕ
saved mie mpie st =
    let st = if has st mie then bit_or st mpie else bit_and st (not32 mpie) in
    bit_and st (not32 mie)

abbrev restored : ℕ → ℕ → ℕ → ℕ
restored mie mpie st = if has st mpie then bit_or st mie else bit_and st (not32 mie)

module _ (i mie mpie : ℕ) (asks : (x : ℕ) → has x mie ≡ (bit i x == 1)) (st : ℕ) where
  saved_self : bit i (not32 mie) ≡ 0 → bit i (saved mie mpie st) ≡ 0
  saved_self e = bit-drop i _ (not32 mie) e

  saved_prev :
      (j : ℕ)
      → bit j (not32 mie) ≡ 1
      → bit j mpie ≡ 1
      → bit j (not32 mpie) ≡ 0
      → bit j (saved mie mpie st) ≡ bit i st
  saved_prev j e f g = elim (Bool-cases (has st mie)) [
    | inl on ↦
        let one : bit i st ≡ 1 = ground (arith, asks st) in
        rw on (bit-keep j _ (not32 mie) e ∙ bit-raise j st mpie f ∙ sym one)
    | inr off ↦
        let nil : bit i st ≡ 0 = ground (arith, asks st, bit-lt i st) in
        rw off (bit-keep j _ (not32 mie) e ∙ bit-drop j st (not32 mpie) g ∙ sym nil)
  ]

  saved_other :
      (k : ℕ)
      → bit k (not32 mie) ≡ 1
      → bit k mpie ≡ 0
      → bit k (not32 mpie) ≡ 1
      → bit k (saved mie mpie st) ≡ bit k st
  saved_other k e f g = elim (Bool-cases (has st mie)) [
    | inl on ↦ rw on (bit-keep k _ (not32 mie) e ∙ bit-leave k st mpie f)
    | inr off ↦ rw off (bit-keep k _ (not32 mie) e ∙ bit-keep k st (not32 mpie) g)
  ]

restored_self :
    (i j mie mpie : ℕ)
    → ((x : ℕ) → has x mpie ≡ (bit j x == 1))
    → (st : ℕ) → bit i mie ≡ 1
    → bit i (not32 mie) ≡ 0
    → bit i (restored mie mpie st) ≡ bit j st
restored_self i j mie mpie asks st e f = elim (Bool-cases (has st mpie)) [
  | inl on ↦
      let one : bit j st ≡ 1 = ground (arith, asks st) in rw on (bit-raise i st mie e ∙ sym one)
  | inr off ↦
      let nil : bit j st ≡ 0 = ground (arith, asks st, bit-lt j st) in
      rw off (bit-drop i st (not32 mie) f ∙ sym nil)
]

-- Into machine mode: MIE cleared, MPIE the old MIE, MPP the old privilege.
pub enter_machine_bits :
    (p st : ℕ)
    → (bit 0 (enter_machine p st) ≡ 0)
      × (bit 1 (enter_machine p st) ≡ bit 0 st)
      × (shr (enter_machine p st) 3 % 4 ≡ p % 4)
unfolding enter_machine bit
enter_machine_bits p st =
    let s = with_mpp p st in
    (
      saved_self 0 1 2 (has-pow 0) s refl,
      saved_prev 0 1 2 (has-pow 0) s 1 refl refl refl ∙ with_mpp-mie p st,
      omega (
        arith,
        mpp_of_bits (saved 1 2 s),
        saved_other 0 1 2 (has-pow 0) s 3 refl refl refl,
        saved_other 0 1 2 (has-pow 0) s 4 refl refl refl,
        with_mpp-mpp p st,
      ),
    )

-- Out of machine mode: MIE is MPIE again.
pub mret_mie : (st : ℕ) → bit 0 (bit_or (restored Status.mie Status.mpie st) Status.mpie) ≡ bit 1 st
unfolding bit
mret_mie st = bit-leave 0 (restored 1 2 st) 2 refl ∙ restored_self 0 1 1 2 (has-pow 1) st refl refl

-- Into supervisor mode: SIE cleared, SPIE the old SIE, SPP whether the trap came from there.
pub enter_supervisor_bits :
    (p st : ℕ)
    → (bit 5 (enter_supervisor p st) ≡ 0)
      × (bit 6 (enter_supervisor p st) ≡ bit 5 st)
      × (bit 7 (enter_supervisor p st) ≡ (if p == 1 then 1 else 0))
unfolding enter_supervisor bit
enter_supervisor_bits p st = (
  saved_self 5 32 64 (has-pow 5) _ refl,
  saved_prev 5 32 64 (has-pow 5) _ 6 refl refl refl ∙ with_spp-sie,
  saved_other 5 32 64 (has-pow 5) _ 7 refl refl refl ∙ with_spp-spp,
)
  where
    spp : ℕ
    spp = if p == 1 then 128 else 0

    with_spp-sie : bit 5 (bit_or (bit_and st (not32 Status.spp)) spp) ≡ bit 5 st
    with_spp-sie = elim (Bool-cases (p == 1)) [
      | inl e ↦ rw e (bit-leave 5 _ 128 refl ∙ bit-keep 5 st (not32 128) refl)
      | inr e ↦ rw e (bit-leave 5 _ 0 refl ∙ bit-keep 5 st (not32 128) refl)
    ]

    with_spp-spp : bit 7 (bit_or (bit_and st (not32 Status.spp)) spp) ≡ (if p == 1 then 1 else 0)
    with_spp-spp = elim (Bool-cases (p == 1)) [
      | inl e ↦ rw e (bit-raise 7 _ 128 refl)
      | inr e ↦ rw e (bit-leave 7 _ 0 refl ∙ bit-drop 7 st (not32 128) refl)
    ]

-- Out of supervisor mode: SIE is SPIE again.
pub sret_sie :
    (st : ℕ)
    → bit 5 (bit_and (bit_or (restored Status.sie Status.spie st) Status.spie) (not32 Status.spp))
      ≡ bit 6 st
unfolding bit
sret_sie st =
    bit-keep 5 _ (not32 128) refl
    ∙ bit-leave 5 (restored 32 64 st) 64 refl
    ∙ restored_self 5 6 32 64 (has-pow 6) st refl refl

pub has-spp : (st : ℕ) → has st Status.spp ≡ (bit 7 st == 1)
has-spp st = has-pow 7 st
