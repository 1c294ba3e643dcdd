-- ===== src/Kernel/Ipc/Window.antt =====
-- The items of an array used as a ring, oldest first.
use oxalyn.Base.{
  ℕ, zero, suc, ◌+◌, ◌%◌, ◌<◌, ◌≡◌, ◌≢◌, refl, sym, ap, ◌∙◌, List, [], ◌∷◌, ◌++◌, length, arith,
  update, update_self, update-ne,
}

-- What is needed of the arithmetic modulo the number of cells.
pub record IsRing (size : ℕ) : Type 0 where
  pub shift : (t k : ℕ) → ((t + 1) % size + k) % size ≡ (t + suc k) % size
  pub apart : (t k : ℕ) → t < size → 0 < k → k < size → t ≢ (t + k) % size
  pub below : (t : ℕ) → t % size < size
  pub start : (t : ℕ) → t < size → (t + 0) % size ≡ t

module _ {ℓ} {A : Type ℓ} (size : ℕ) where
  abbrev pub window : (ℕ → A) → ℕ → ℕ → List A
  window buf tail zero = []
  window buf tail (suc n) = buf tail ∷ window buf ((tail + 1) % size) n

  pub length-window : (buf : ℕ → A) (tail n : ℕ) → length (window buf tail n) ≡ n
  length-window buf tail zero = refl
  length-window buf tail (suc n) = ap suc (length-window buf ((tail + 1) % size) n)

module _ {ℓ} {A : Type ℓ} (size : ℕ) (ring : IsRing size) where
  -- A write at the cell behind the last item leaves the items as they are.
  window-update :
      (buf : ℕ → A) (tail n cell : ℕ) (v : A)
      → (tail + n) % size ≡ cell
      → tail < size
      → n < size
      → window size (update buf cell v) tail n ≡ window size buf tail n
  window-update buf tail zero cell v e t h = refl
  window-update buf tail (suc n) cell v e t h =
      let rest =
        window-update buf ((tail + 1) % size) n cell v (ring.shift tail n ∙ e)
          (ring.below (tail + 1)) (omega arith) in
      let ahead : tail ≢ cell = λ q. ring.apart tail (suc n) t (omega arith) h (q ∙ sym e) in
      rw (update-ne buf cell v tail ahead) (ap (λ l. buf tail ∷ l) rest)

  window-snoc :
      (buf : ℕ → A) (tail n : ℕ)
      → tail < size
      → window size buf tail (suc n) ≡ window size buf tail n ++ (buf ((tail + n) % size) ∷ [])
  window-snoc buf tail zero t = rw (ring.start tail t) refl
  window-snoc buf tail (suc n) t =
      rw (sym (ring.shift tail n))
        (ap (λ l. buf tail ∷ l) (window-snoc buf ((tail + 1) % size) n (ring.below (tail + 1))))

  -- Put behind the last item, a value comes last.
  pub window-push :
      (buf : ℕ → A) (tail n cell : ℕ) (v : A)
      → (tail + n) % size ≡ cell
      → tail < size
      → n < size
      → window size (update buf cell v) tail (suc n) ≡ window size buf tail n ++ (v ∷ [])
  window-push buf tail n cell v e t h =
      window-snoc (update buf cell v) tail n t
      ∙ rw (e, update_self buf cell v, window-update buf tail n cell v e t h) refl
