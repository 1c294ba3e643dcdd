-- ===== src/Base/Maps.antt =====
-- Total arrays of words as functions of the index, for the memories that the source indexes
-- only in range (or by a masked index).
use Prim.Native.Nat.{ℕ}
use mathlib.Core.Path.{◌≡◌, refl}
use mathlib.Core.Logic.{◌≢◌}
use native.Mathlib.Omega.{arith}
use mathlib.Core.Logic.{inl, inr}
use oxalyn.Base.Tests.{◌==◌, if◌then◌else◌, Bool-cases, ==_iff}

module _ {ℓ} {A : Type ℓ} where
  unfoldable pub update : (ℕ → A) → ℕ → A → ℕ → A
  update f i v = λ j. if j == i then v else f j

  -- What an array holds after one write.
  pub update-at : (f : ℕ → A) (i : ℕ) (v : A) (j : ℕ) → update f i v j ≡ (if j == i then v else f j)
  unfolding update
  update-at f i v j = refl

  pub update_self : (f : ℕ → A) (i : ℕ) (v : A) → update f i v i ≡ v
  unfolding update
  update_self f i v = ground arith

  pub update-ne : (f : ℕ → A) (i : ℕ) (v : A) (j : ℕ) → j ≢ i → update f i v j ≡ f j
  unfolding update
  update-ne f i v j h = ground arith

-- What holds of the value written, and of the others where they stand, holds of the array.
pub update-all {ℓ κ} :
    {A : Type ℓ} (P : ℕ → A → Type κ) (f : ℕ → A) (i : ℕ) (v : A)
    → P i v
    → ((j : ℕ) → j ≢ i → P j (f j))
    → (j : ℕ) → P j (update f i v j)
update-all P f i v here others j = elim (Bool-cases (j == i)) [
  | inl e ↦ let k : j ≡ i = (==_iff j i).0 e in rw (k, update_self f i v) here
  | inr e ↦ let k : j ≢ i = λ q. ground arith in rw (update-ne f i v j k) (others j k)
]
