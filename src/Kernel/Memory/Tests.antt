-- ===== src/Kernel/Memory/Tests.antt =====
-- A small heap, and the theorems at it.
use oxalyn.Base.{
  ℕ, ◌+◌, ◌≡◌, ◌≢◌, ◌≤◌, ◌⊎◌, ◌↔◌, refl, true, false, List, [], ◌∷◌, none, some, arith,
}
use oxalyn.Kernel.Memory.{
  Block, heap_start, heap_size, max_blocks, memory_init, first_fit, carve, kmalloc, kfree,
}
use oxalyn.Kernel.Memory.Layout.{IsValid, heap-IsValid}
use oxalyn.Kernel.Memory.Live.{live, live-kmalloc, kmalloc_fresh, live-kfree}
use oxalyn.Kernel.Memory.Limits.{NoneFits, total, kfrees, kmalloc_null_iff, total-kmalloc}
use oxalyn.Kernel.Memory.Undo.{kfree-kmalloc}

-- 100 bytes are in use, the rest is free.
abbrev one_taken : List Block
one_taken =
    record { ptr = 0x1000; size = 100; used = true }
    ∷ record { ptr = 0x1064; size = 12188; used = false }
    ∷ []

one_taken-IsValid : IsValid one_taken
one_taken-IsValid = record {
  ordered = omega arith;
  merged = (refl, (refl, tt));
  some_block = omega arith;
  few_blocks = omega arith;
}

kmalloc_splits : kmalloc 100 memory_init ≡ (0x1000, one_taken)
unfolding kmalloc memory_init first_fit carve
kmalloc_splits = refl

granted : (kmalloc 7000 one_taken).0 ≢ 0
unfolding kmalloc first_fit
granted = omega arith

heap-IsValid_example : IsValid (kfree 0x1000 (kmalloc 20 one_taken).1)
heap-IsValid_example =
    heap-IsValid.2 (kmalloc 20 one_taken).1 0x1000 (heap-IsValid.1 one_taken 20 one_taken-IsValid)

live-kmalloc_example : live 0x1064 (kmalloc 20 one_taken).1 ≡ some 20
unfolding kmalloc first_fit carve
live-kmalloc_example = live-kmalloc one_taken 20 0x1064 one_taken-IsValid

kmalloc_fresh_example :
    let p = (kmalloc 7000 one_taken).0 in
    (0x1000 ≤ p) × (p + 7000 ≤ heap_start + heap_size) × ((p + 7000 ≤ 0x1000) ⊎ (0x1000 + 100 ≤ p))
kmalloc_fresh_example = kmalloc_fresh one_taken 7000 0x1000 100 one_taken-IsValid granted refl

live-kfree_example : live 0x1000 (kfree 0x1000 one_taken) ≡ none
live-kfree_example = live-kfree one_taken 0x1000 0x1000 one_taken-IsValid

kmalloc_null_iff_example :
    ((kmalloc 13000 one_taken).0 ≡ 0)
    ↔ (◌≡◌ {A = ℕ} 13000 0 ⊎ ((max_blocks ≤ 2) ⊎ NoneFits 13000 one_taken))
kmalloc_null_iff_example = kmalloc_null_iff one_taken 13000 one_taken-IsValid

-- 5188 bytes are gone.
total-kmalloc_example :
    (total (kmalloc 7000 one_taken).1 + 5188 ≡ 12288)
    × ((ps : List ℕ) → total (kfrees ps (kmalloc 7000 one_taken).1) + 5188 ≡ 12288)
total-kmalloc_example = total-kmalloc one_taken 7000 one_taken-IsValid granted

small_granted : (kmalloc 20 one_taken).0 ≢ 0
unfolding kmalloc first_fit
small_granted = omega arith

kfree-kmalloc_example : kfree (kmalloc 20 one_taken).0 (kmalloc 20 one_taken).1 ≡ one_taken
kfree-kmalloc_example = kfree-kmalloc one_taken 20 one_taken-IsValid small_granted refl
