-- ===== src/Kernel/Memory/Limits.antt =====
-- When `kmalloc` fails, and what becomes of the bytes of the heap.
use oxalyn.Base.{
  ℕ, ◌+◌, ◌-◌, ◌*◌, ◌≤◌, ◌<◌, ◌≡◌, ◌≢◌, refl, ◌∙◌, false, List, [], ◌∷◌, ◌⊎◌, ◌↔◌, length, arith,
  add64, ltb, if◌then◌else◌,
}
use oxalyn.Kernel.Memory.{
  Block, heap_start, heap_size, max_blocks, fits, carve, first_fit, kmalloc, merge_next, free_after,
  free_first, kfree,
}
use oxalyn.Kernel.Memory.Layout.{Ordered, IsValid, Ordered-le, Ordered-lower, heap-IsValid}

abbrev pub NoneFits : ℕ → List Block → Type 0
NoneFits size [] = Unit {0}
NoneFits size (b ∷ bs) = (fits size b ≡ false) × NoneFits size bs

-- The size of the block that the search of `kmalloc` stops at, 0 if there is none.
abbrev pub chosen : ℕ → List Block → ℕ
chosen size [] = 0
chosen size (b ∷ bs) = if fits size b then b.size else chosen size bs

abbrev pub total : List Block → ℕ
total [] = 0
total (b ∷ bs) = b.size + total bs

abbrev heap_end : ℕ
heap_end = heap_start + heap_size

first_fit_null :
    (size n lo : ℕ) (bs : List Block)
    → 0 < lo
    → Ordered lo heap_end bs
    → (first_fit size n bs).0 ≡ 0
    → NoneFits size bs
unfolding first_fit
first_fit_null size n lo [] h o e = tt
first_fit_null size n lo (b ∷ bs) h o e =
    ground (arith, first_fit_null size n (b.ptr + b.size) bs (omega arith) o.2)

NoneFits-null : (size n : ℕ) (bs : List Block) → NoneFits size bs → (first_fit size n bs).0 ≡ 0
unfolding first_fit
NoneFits-null size n [] f = refl
NoneFits-null size n (b ∷ bs) f = ground (arith, NoneFits-null size n bs f.1)

-- `kmalloc` returns NULL exactly when the request is empty, the block table is full, or no free
-- block is large enough.
pub kmalloc_null_iff :
    (blocks : List Block) (size : ℕ)
    → IsValid blocks
    → ((kmalloc size blocks).0 ≡ 0)
      ↔ ((size ≡ 0) ⊎ ((max_blocks ≤ length blocks) ⊎ NoneFits size blocks))
unfolding kmalloc
kmalloc_null_iff blocks size v = (
  λ e.
      ground (arith, first_fit_null size (length blocks) heap_start blocks (omega arith) v.ordered),
  λ c. ground (arith, NoneFits-null size (length blocks) blocks),
)

first_fit-total :
    (size n lo : ℕ) (bs : List Block)
    → n < max_blocks
    → Ordered lo heap_end bs
    → let c = chosen size bs in
      total (first_fit size n bs).1 + (if ltb (size * 2) c then 0 else c - size) ≡ total bs
unfolding first_fit carve
first_fit-total size n lo [] h o = ground arith
first_fit-total size n lo (b ∷ bs) h o = ground (
  arith,
  Ordered-le (b.ptr + b.size) heap_end bs o.2,
  first_fit-total size n (b.ptr + b.size) bs h o.2,
)

merge_next-total :
    (lo : ℕ) (b : Block) (bs : List Block)
    → Ordered lo heap_end (b ∷ bs)
    → total (merge_next b bs) ≡ b.size + total bs
unfolding merge_next
merge_next-total lo b [] o = refl
merge_next-total lo b (n ∷ bs) o = ground (arith, Ordered-le (n.ptr + n.size) heap_end bs o.2.2)

free_after-total :
    (p lo : ℕ) (prev : Block) (bs : List Block)
    → Ordered lo heap_end (prev ∷ bs)
    → total (free_after p prev bs) ≡ prev.size + total bs
unfolding free_after
free_after-total p lo prev [] o = refl
free_after-total p lo prev (b ∷ bs) o =
    let end = Ordered-le (b.ptr + b.size) heap_end bs o.2.2 in
    let joined = record prev { size = add64 prev.size b.size } in
    let joined_ordered : Ordered lo heap_end (joined ∷ bs) = grown end in
    ground (
      arith,
      end,
      merge_next-total (prev.ptr + prev.size) (record b { used = false }) bs o.2,
      merge_next-total lo joined bs joined_ordered,
      free_after-total p (prev.ptr + prev.size) b bs o.2,
    )
  where
    grown :
        b.ptr + b.size ≤ heap_end
        → Ordered lo heap_end (record prev { size = add64 prev.size b.size } ∷ bs)
    grown end = (
      o.0,
      omega arith,
      Ordered-lower (b.ptr + b.size) (prev.ptr + add64 prev.size b.size) heap_end bs (omega arith)
          o.2.2,
    )

-- `kfree` gives back every byte: the sizes of the blocks sum up to what they did.
total-kfree : (blocks : List Block) (p : ℕ) → IsValid blocks → total (kfree p blocks) ≡ total blocks
unfolding kfree free_first
total-kfree [] p v = ground arith
total-kfree (b ∷ bs) p v = ground (
  arith,
  merge_next-total heap_start (record b { used = false }) bs v.ordered,
  free_after-total p heap_start b bs v.ordered,
)

-- The bytes of the chosen block that belong to no block afterwards.
abbrev pub lost : ℕ → List Block → ℕ
lost size blocks = let c = chosen size blocks in if ltb (size * 2) c then 0 else c - size

kmalloc-total :
    (blocks : List Block) (size : ℕ)
    → IsValid blocks
    → (kmalloc size blocks).0 ≢ 0
    → total (kmalloc size blocks).1 + lost size blocks ≡ total blocks
unfolding kmalloc
kmalloc-total blocks size v h =
    ground (arith, first_fit-total size (length blocks) heap_start blocks, v.ordered)

-- Any sequence of `kfree`.
abbrev pub kfrees : List ℕ → List Block → List Block
kfrees [] blocks = blocks
kfrees (p ∷ ps) blocks = kfrees ps (kfree p blocks)

total-kfrees :
    (ps : List ℕ) (blocks : List Block) → IsValid blocks → total (kfrees ps blocks) ≡ total blocks
total-kfrees [] blocks v = refl
total-kfrees (p ∷ ps) blocks v =
    total-kfrees ps (kfree p blocks) (heap-IsValid.2 blocks p v) ∙ total-kfree blocks p v

-- In a well-formed heap, a successful `kmalloc` that takes a block of at most twice the size asked
-- for cuts the rest of it off: those bytes belong to no block any more, and no sequence of `kfree`
-- right after it brings them back. Any other successful `kmalloc` loses no byte.
pub total-kmalloc :
    (blocks : List Block) (size : ℕ)
    → IsValid blocks
    → (kmalloc size blocks).0 ≢ 0
    → (total (kmalloc size blocks).1 + lost size blocks ≡ total blocks)
      × ((ps : List ℕ)
          → total (kfrees ps (kmalloc size blocks).1) + lost size blocks ≡ total blocks)
total-kmalloc blocks size v h =
    let cut = kmalloc-total blocks size v h in
    (
      cut,
      λ ps.
          let same = total-kfrees ps (kmalloc size blocks).1 (heap-IsValid.1 blocks size v) in
          omega (arith, cut, same),
    )
