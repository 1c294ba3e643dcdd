-- ===== src/Kernel/Memory.antt =====
-- kernel/memory.c: the kernel heap. The model's heap is `blocks[0 .. block_count)` as a list; a
-- pointer is its address, and 0 is NULL. `size_t` and `uintptr_t` have 64 bits.
pub mod Layout
pub mod Live
pub mod Limits
pub mod Undo
mod Tests
use oxalyn.Base.{
  ℕ, suc, ◌+◌, ◌*◌, ◌^◌, Bool, true, false, not, ◌&&◌, List, [], ◌∷◌, ltb, leb, ◌==◌, if◌then◌else◌,
  length, u64, add64, sub64,
}

abbrev pub heap_start : ℕ
heap_start = 0x1000

abbrev pub heap_size : ℕ
heap_size = 12 * 1024

abbrev pub max_blocks : ℕ
max_blocks = 64

pub record Block : Type 0 where
  pub ptr : ℕ
  pub size : ℕ
  pub used : Bool

unfoldable pub memory_init : List Block
memory_init = record { ptr = heap_start; size = heap_size; used = false } ∷ []

-- The test of the search loop.
abbrev pub fits : ℕ → Block → Bool
fits size b = not b.used && leb size b.size

-- The block found, taken: a remainder that is larger than the request is split off.
unfoldable pub carve : ℕ → ℕ → Block → List Block → List Block
carve size block_count b rest =
    if ltb (u64 (size * 2)) b.size && ltb block_count max_blocks
    then taken ∷ remainder ∷ rest
    else taken ∷ rest
  where
    taken : Block
    taken = record b { size = size; used = true }

    remainder : Block
    remainder = record { ptr = add64 b.ptr size; size = sub64 b.size size; used = false }

-- The loop over `i`: the first free block that is large enough. The pair holds the pointer
-- returned (0 for NULL) and the blocks left behind.
unfoldable pub first_fit : ℕ → ℕ → List Block → ℕ × List Block
first_fit size block_count [] = (0, [])
first_fit size block_count (b ∷ bs) =
    let (p, rest) = first_fit size block_count bs in
    if fits size b then (b.ptr, carve size block_count b bs) else (p, b ∷ rest)

unfoldable pub kmalloc : ℕ → List Block → ℕ × List Block
kmalloc size blocks =
    if size == 0
    then (0, blocks)
    else if leb max_blocks (length blocks)
    then (0, blocks)
    else first_fit size (length blocks) blocks

-- `blocks[i].size += blocks[i + 1].size`, if that block is free.
unfoldable pub merge_next : Block → List Block → List Block
merge_next b [] = b ∷ []
merge_next b (n ∷ bs) = if n.used then b ∷ n ∷ bs else record b { size = add64 b.size n.size } ∷ bs

-- The test of the search loop of `kfree`.
abbrev pub frees : ℕ → Block → Bool
frees p b = b.ptr == p && b.used

-- The loop from index 1 on, where `blocks[i - 1]` is `prev`.
unfoldable pub free_after : ℕ → Block → List Block → List Block
free_after p prev [] = prev ∷ []
free_after p prev (b ∷ bs) =
    let freed =
      if prev.used
      then prev ∷ merge_next (record b { used = false }) bs
      else merge_next (record prev { size = add64 prev.size b.size }) bs in
    let rest = free_after p b bs in if frees p b then freed else prev ∷ rest

unfoldable pub free_first : ℕ → List Block → List Block
free_first p [] = []
free_first p (b ∷ bs) =
    if frees p b then merge_next (record b { used = false }) bs else free_after p b bs

unfoldable pub kfree : ℕ → List Block → List Block
kfree p blocks = if p == 0 then blocks else free_first p blocks
