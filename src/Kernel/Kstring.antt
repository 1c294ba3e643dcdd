-- ===== src/Kernel/Kstring.antt =====
-- The byte and string functions of kernel/kstring.c over memories that are functions of the address.
-- A `char` is read as an unsigned byte. A loop that runs to a terminator has fuel; `none` says that
-- no end was found.
pub mod Laws
use oxalyn.Base.{
  ℕ, zero, suc, ◌+◌, Bool, true, false, not, ◌&&◌, List, [], ◌∷◌, Option, none, some, ◌==◌,
  if◌then◌else◌, update,
}
use oxalyn.Base.Int.{ℤ, sub_ℕ}

-- kmemset with the byte 0, and the loop at the end of kstrncpy.
unfoldable pub zero_fill : (ℕ → ℕ) → ℕ → ℕ → ℕ → ℕ
zero_fill dst d zero = dst
zero_fill dst d (suc n) = zero_fill (update dst d 0) (d + 1) n

-- kmemcpy of the listed bytes.
unfoldable pub kmemcpy : (ℕ → ℕ) → ℕ → List ℕ → ℕ → ℕ
kmemcpy dst d [] = dst
kmemcpy dst d (b ∷ bs) = kmemcpy (update dst d b) (d + 1) bs

-- kstrncpy: `n` is not counted down at the terminator.
unfoldable pub kstrncpy : (ℕ → ℕ) → ℕ → (ℕ → ℕ) → ℕ → ℕ → ℕ → ℕ
unfolding zero_fill
kstrncpy dst d src s zero = dst
kstrncpy dst d src s (suc n) =
    let dst = update dst d (src s) in
    let rest = kstrncpy dst (d + 1) src (s + 1) n in
    if src s == 0 then zero_fill dst (d + 1) (suc n) else rest

unfoldable pub kstrlen : ℕ → (ℕ → ℕ) → ℕ → Option ℕ
kstrlen zero m s = none
kstrlen (suc fuel) m s =
    let rest = kstrlen fuel m (s + 1) in
    if m s == 0 then some 0 else elim rest [ none ↦ none | some n ↦ some (suc n) ]

unfoldable pub kstrcmp : ℕ → (ℕ → ℕ) → ℕ → (ℕ → ℕ) → ℕ → Option ℤ
kstrcmp zero m a k b = none
kstrcmp (suc fuel) m a k b =
    let rest = kstrcmp fuel m (a + 1) k (b + 1) in
    if not (m a == 0) && m a == k b then rest else some (sub_ℕ (m a) (k b))
