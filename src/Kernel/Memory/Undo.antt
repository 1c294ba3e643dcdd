-- ===== src/Kernel/Memory/Undo.antt =====
-- `kfree` directly after `kmalloc`.
use oxalyn.Base.{
  ℕ, ◌+◌, ◌-◌, ◌*◌, ◌≤◌, ◌<◌, ◌≡◌, ◌≢◌, refl, ap, Bool, true, false, List, [], ◌∷◌, inl, inr,
  length, arith, ltb, ltb→lt, Bool-cases, ◌∙◌,
}
use oxalyn.Kernel.Memory.{
  Block, heap_start, heap_size, max_blocks, fits, carve, first_fit, kmalloc, merge_next, frees,
  free_after, free_first, kfree,
}
use oxalyn.Kernel.Memory.Layout.{Ordered, Merged, IsValid, Ordered-le}
use oxalyn.Kernel.Memory.Live.{first_fit-range}
use oxalyn.Kernel.Memory.Limits.{lost}

abbrev heap_end : ℕ
heap_end = heap_start + heap_size

merge_next_used :
    (b : Block) (bs : List Block) → Merged (b ∷ bs) → b.used ≡ false → merge_next b bs ≡ b ∷ bs
unfolding merge_next
merge_next_used b [] m e = refl
merge_next_used b (n ∷ bs) m e = ground arith

-- The block that `carve` takes, in use and freed again.
abbrev taken : ℕ → Block → Bool → Block
taken size b used = record { ptr = b.ptr; size = size; used = used }

abbrev cut_off : ℕ → Block → Block
cut_off size b = record { ptr = b.ptr + size; size = b.size - size; used = false }

module _ (size n : ℕ) (b : Block) (bs : List Block) where
  carve-split :
      n < max_blocks
      → b.ptr + b.size ≤ heap_end
      → size * 2 < b.size
      → carve size n b bs ≡ taken size b true ∷ cut_off size b ∷ bs
  unfolding carve
  carve-split h e l = ground arith

  carve-whole :
      b.ptr + b.size ≤ heap_end
      → size ≤ b.size
      → ltb (size * 2) b.size ≡ false
      → carve size n b bs ≡ taken size b true ∷ bs
  unfolding carve
  carve-whole e f l = ground arith

  rejoin :
      b.ptr + b.size ≤ heap_end
      → size ≤ b.size
      → b.used ≡ false
      → merge_next (taken size b false) (cut_off size b ∷ bs) ≡ b ∷ bs
  unfolding merge_next
  rejoin e f u = ground arith

  -- Freeing what `carve` has taken restores the block, unless bytes were cut off.
  carve-undo :
      n < max_blocks
      → b.ptr + b.size ≤ heap_end
      → Merged (b ∷ bs)
      → fits size b ≡ true
      → lost size (b ∷ bs) ≡ 0
      → (rest : List Block) × (carve size n b bs ≡ taken size b true ∷ rest)
        × (merge_next (taken size b false) rest ≡ b ∷ bs)
  carve-undo h e m f k =
      let unused : b.used ≡ false = ground arith in
      let enough : size ≤ b.size = ground arith in
      elim (Bool-cases (ltb (size * 2) b.size)) [
        | inl split ↦
            (cut_off size b ∷ bs, carve-split h e (ltb→lt _ _ split), rejoin e enough unused)
        | inr whole ↦
            let same : size ≡ b.size = ground arith in
            let back : taken size b false ≡ b = ground arith in
            (bs, carve-whole e enough whole, rw back (merge_next_used b bs m unused))
      ]

free_after-first_fit :
    (size n lo : ℕ) (prev : Block) (bs : List Block)
    → n < max_blocks
    → Ordered lo heap_end bs
    → Merged (prev ∷ bs)
    → (first_fit size n bs).0 ≢ 0
    → lost size bs ≡ 0
    → free_after (first_fit size n bs).0 prev (first_fit size n bs).1 ≡ prev ∷ bs
unfolding first_fit
free_after-first_fit size n lo prev [] h o m found k = absurd (found refl)
free_after-first_fit size n lo prev (b ∷ bs) h o m found k = elim (Bool-cases (fits size b)) [
  | inl fit ↦
      let (rest, e, u) = carve-undo size n b bs h (Ordered-le _ heap_end bs o.2) m.1 fit k in
      let busy : prev.used ≡ true = ground arith in rw (fit, e) (hit prev busy rest u)
  | inr unfit ↦
      let later = free_after-first_fit size n (b.ptr + b.size) b bs h o.2 m.1 in
      let range = first_fit-range size n (b.ptr + b.size) bs o.2 in
      let found' : (first_fit size n bs).0 ≢ 0 = rw unfit at found in
      let k' : lost size bs ≡ 0 = rw unfit at k in
      let passed : frees (first_fit size n bs).0 b ≡ false = ground arith in
      rw unfit (miss _ _ prev passed ∙ ap (◌∷◌ prev) (later found' k'))
]
  where
    hit :
        (prev : Block)
        → prev.used ≡ true
        → (rest : List Block) → merge_next (taken size b false) rest ≡ b ∷ bs
        → free_after b.ptr prev (taken size b true ∷ rest) ≡ prev ∷ b ∷ bs
    hit prev busy rest u = unfold free_after in ground arith

    miss :
        (p : ℕ) (r : List Block) (prev : Block)
        → frees p b ≡ false
        → free_after p prev (b ∷ r) ≡ prev ∷ free_after p b r
    miss p r prev passed = unfold free_after in rw passed

first_fit_undo :
    (size n lo : ℕ) (bs : List Block)
    → n < max_blocks
    → Ordered lo heap_end bs
    → Merged bs
    → (first_fit size n bs).0 ≢ 0
    → lost size bs ≡ 0
    → free_first (first_fit size n bs).0 (first_fit size n bs).1 ≡ bs
unfolding first_fit
first_fit_undo size n lo [] h o m found k = absurd (found refl)
first_fit_undo size n lo (b ∷ bs) h o m found k = elim (Bool-cases (fits size b)) [
  | inl fit ↦
      let (rest, e, u) = carve-undo size n b bs h (Ordered-le _ heap_end bs o.2) m fit k in
      rw (fit, e) (hit rest u)
  | inr unfit ↦
      let later = free_after-first_fit size n (b.ptr + b.size) b bs h o.2 m in
      let range = first_fit-range size n (b.ptr + b.size) bs o.2 in
      let found' : (first_fit size n bs).0 ≢ 0 = rw unfit at found in
      let k' : lost size bs ≡ 0 = rw unfit at k in
      let passed : frees (first_fit size n bs).0 b ≡ false = ground arith in
      rw unfit (miss _ _ passed ∙ later found' k')
]
  where
    hit :
        (rest : List Block)
        → merge_next (taken size b false) rest ≡ b ∷ bs
        → free_first b.ptr (taken size b true ∷ rest) ≡ b ∷ bs
    hit rest u = unfold free_first in ground arith

    miss : (p : ℕ) (r : List Block) → frees p b ≡ false → free_first p (b ∷ r) ≡ free_after p b r
    miss p r passed = unfold free_first in rw passed

-- Where no bytes were cut off, `kfree` of what `kmalloc` returned restores the heap.
pub kfree-kmalloc :
    (blocks : List Block) (size : ℕ)
    → IsValid blocks
    → (kmalloc size blocks).0 ≢ 0
    → lost size blocks ≡ 0
    → kfree (kmalloc size blocks).0 (kmalloc size blocks).1 ≡ blocks
unfolding kmalloc kfree
kfree-kmalloc blocks size v h k =
    ground (arith, first_fit_undo size (length blocks) heap_start blocks)
