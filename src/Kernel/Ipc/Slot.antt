-- ===== src/Kernel/Ipc/Slot.antt =====
-- What a call does with the slot that its argument names, if there is one.
use oxalyn.Base.{ℕ, Option, none, some}

unfoldable pub at_slot {ℓ} : {A : Type ℓ} → Option ℕ → A → (ℕ → A) → A
at_slot none d f = d
at_slot (some i) d f = f i

-- Two calls that agree in every slot agree.
pub at_slot-rel {ℓ κ} :
    {A : Type ℓ} {B : Type κ} (R : A → B → Type 0) (o : Option ℕ) {d : A} {e : B} {f : ℕ → A}
    {g : ℕ → B}
    → R d e
    → ((i : ℕ) → R (f i) (g i))
    → R (at_slot o d f) (at_slot o e g)
unfolding at_slot
at_slot-rel R none r h = r
at_slot-rel R (some i) r h = h i
