-- ===== src/Kernel/Memory/Layout.antt =====
-- The layout of the heap: blocks lie in order, inside the heap and apart, and no two free blocks
-- are neighbours.
use oxalyn.Base.{
  ℕ, ◌+◌, ◌≤◌, ◌<◌, ◌≡◌, Bool, true, false, add64, ◌||◌, List, [], ◌∷◌, length, arith, max, refl,
  ◌-◌, Bool-cases, inl, inr,
}
use oxalyn.Kernel.Memory.{
  Block, heap_start, heap_size, max_blocks, memory_init, carve, first_fit, kmalloc, merge_next,
  frees, free_after, free_first, kfree,
}

-- From address `lo` on the blocks follow one another, not empty, up to `hi` at most.
abbrev pub Ordered : ℕ → ℕ → List Block → Type 0
Ordered lo hi [] = lo ≤ hi
Ordered lo hi (b ∷ bs) = (lo ≤ b.ptr) × (0 < b.size) × Ordered (b.ptr + b.size) hi bs

abbrev head_used : List Block → Bool
head_used [] = true
head_used (b ∷ bs) = b.used

-- Of two neighbours one is used.
abbrev pub Merged : List Block → Type 0
Merged [] = Unit {0}
Merged (b ∷ bs) = ((b.used || head_used bs) ≡ true) × Merged bs

pub record IsValid (blocks : List Block) : Type 0 where
  pub ordered : Ordered heap_start (heap_start + heap_size) blocks
  pub merged : Merged blocks
  pub some_block : 1 ≤ length blocks
  pub few_blocks : length blocks ≤ max_blocks

abbrev heap_end : ℕ
heap_end = heap_start + heap_size

pub Ordered-lower :
    (lo lo' hi : ℕ) (bs : List Block) → lo' ≤ lo → Ordered lo hi bs → Ordered lo' hi bs
Ordered-lower lo lo' hi [] h o = omega arith
Ordered-lower lo lo' hi (b ∷ bs) h o = (omega arith, o.1, o.2)

pub Ordered-le : (lo hi : ℕ) (bs : List Block) → Ordered lo hi bs → lo ≤ hi
Ordered-le lo hi [] o = o
Ordered-le lo hi (b ∷ bs) o = omega (arith, Ordered-le (b.ptr + b.size) hi bs o.2)

first_fit-Ordered :
    (size n lo : ℕ) (bs : List Block)
    → 0 < size
    → Ordered lo heap_end bs
    → Ordered lo heap_end (first_fit size n bs).1
unfolding first_fit carve
first_fit-Ordered size n lo [] h o = o
first_fit-Ordered size n lo (b ∷ bs) h o = ground (
  arith,
  first_fit-Ordered size n (b.ptr + b.size) bs h o.2,
  Ordered-le (b.ptr + b.size) heap_end bs o.2,
  Ordered-lower (b.ptr + b.size) (b.ptr + size) heap_end bs,
)

first_fit-head_used :
    (size n : ℕ) (bs : List Block) → head_used bs ≡ true → head_used (first_fit size n bs).1 ≡ true
unfolding first_fit carve
first_fit-head_used size n [] h = refl
first_fit-head_used size n (b ∷ bs) h = ground arith

first_fit-Merged : (size n : ℕ) (bs : List Block) → Merged bs → Merged (first_fit size n bs).1
unfolding first_fit carve
first_fit-Merged size n [] m = tt
first_fit-Merged size n (b ∷ bs) m =
    ground (arith, first_fit-Merged size n bs m.1, first_fit-head_used size n bs)

first_fit-length :
    (size n : ℕ) (bs : List Block)
    → (length bs ≤ length (first_fit size n bs).1)
      × (length (first_fit size n bs).1 ≤ max (length bs) (length bs + (max_blocks - n)))
      × (length (first_fit size n bs).1 ≤ length bs + 1)
unfolding first_fit carve
first_fit-length size n [] = omega arith
first_fit-length size n (b ∷ bs) = ground (arith, first_fit-length size n bs)

merge_next-Ordered :
    (lo : ℕ) (b : Block) (bs : List Block)
    → Ordered lo heap_end (b ∷ bs)
    → Ordered lo heap_end (merge_next b bs)
unfolding merge_next
merge_next-Ordered lo b [] o = o
merge_next-Ordered lo b (n ∷ bs) o = ground (
  arith,
  Ordered-le (n.ptr + n.size) heap_end bs o.2.2,
  Ordered-lower (n.ptr + n.size) (b.ptr + (b.size + n.size)) heap_end bs,
)

merge_next-Merged :
    (b : Block) (bs : List Block)
    → Merged bs
    → Merged (merge_next b bs) × (head_used (merge_next b bs) ≡ b.used)
unfolding merge_next
merge_next-Merged b [] m = ground arith
merge_next-Merged b (n ∷ bs) m = ground arith

free_after-Ordered :
    (p lo : ℕ) (prev : Block) (bs : List Block)
    → Ordered lo heap_end (prev ∷ bs)
    → Ordered lo heap_end (free_after p prev bs)
unfolding free_after
free_after-Ordered p lo prev [] o = o
free_after-Ordered p lo prev (b ∷ bs) o = ground (
  arith,
  Ordered-le (b.ptr + b.size) heap_end bs o.2.2,
  merge_next-Ordered (prev.ptr + prev.size) (record b { used = false }) bs,
  merge_next-Ordered lo (record prev { size = add64 prev.size b.size }) bs,
  Ordered-lower (b.ptr + b.size) (prev.ptr + (prev.size + b.size)) heap_end bs,
  free_after-Ordered p (prev.ptr + prev.size) b bs o.2,
)

free_after-Merged :
    (p : ℕ) (prev : Block) (bs : List Block)
    → Merged (prev ∷ bs)
    → Merged (free_after p prev bs) × (head_used (free_after p prev bs) ≡ prev.used)
unfolding free_after
free_after-Merged p prev [] m = (m, refl)
free_after-Merged p prev (b ∷ bs) m = ground (
  arith,
  merge_next-Merged (record b { used = false }) bs m.1.1,
  merge_next-Merged (record prev { size = add64 prev.size b.size }) bs m.1.1,
  free_after-Merged p b bs m.1,
)

merge_next-length :
    (b : Block) (bs : List Block)
    → (1 ≤ length (merge_next b bs)) × (length (merge_next b bs) ≤ length bs + 1)
unfolding merge_next
merge_next-length b [] = omega arith
merge_next-length b (n ∷ bs) = ground arith

free_after-length :
    (p : ℕ) (prev : Block) (bs : List Block)
    → (1 ≤ length (free_after p prev bs)) × (length (free_after p prev bs) ≤ length bs + 1)
unfolding free_after
free_after-length p prev [] = omega arith
free_after-length p prev (b ∷ bs) = ground (
  arith,
  merge_next-length (record b { used = false }) bs,
  merge_next-length (record prev { size = add64 prev.size b.size }) bs,
  free_after-length p b bs,
)

free_first-IsValid : (p : ℕ) (bs : List Block) → IsValid bs → IsValid (free_first p bs)
unfolding free_first
free_first-IsValid p [] v = v
free_first-IsValid p (b ∷ bs) v =
    let freed = record b { used = false } in
    elim (Bool-cases (frees p b)) [
      | inl hit ↦ rw hit (record {
        ordered = merge_next-Ordered heap_start freed bs v.ordered;
        merged = (merge_next-Merged freed bs v.merged.1).0;
        some_block = (merge_next-length freed bs).0;
        few_blocks = omega (arith, merge_next-length freed bs, v.few_blocks);
      })
      | inr miss ↦ rw miss (record {
        ordered = free_after-Ordered p heap_start b bs v.ordered;
        merged = (free_after-Merged p b bs v.merged).0;
        some_block = (free_after-length p b bs).0;
        few_blocks = omega (arith, free_after-length p b bs, v.few_blocks);
      })
    ]

-- `memory_init` sets up a valid heap; `kmalloc`, of any size, and `kfree`, of any pointer, a
-- stale or foreign one too, leave a valid heap valid: the blocks stay in order, apart and inside
-- the heap, no two free blocks are neighbours, and the block table does not overflow.
pub heap-IsValid :
    IsValid memory_init
    × ((blocks : List Block) (size : ℕ) → IsValid blocks → IsValid (kmalloc size blocks).1)
    × ((blocks : List Block) (p : ℕ) → IsValid blocks → IsValid (kfree p blocks))
unfolding memory_init kmalloc kfree
heap-IsValid = (
  record {
    ordered = omega arith;
    merged = (refl, tt);
    some_block = omega arith;
    few_blocks = omega arith;
  },
  λ blocks size v. ground (
    arith,
    first_fit-Ordered size (length blocks) heap_start blocks,
    first_fit-Merged size (length blocks) blocks v.merged,
    first_fit-length size (length blocks) blocks,
  ),
  λ blocks p v. ground (arith, free_first-IsValid p blocks v),
)
