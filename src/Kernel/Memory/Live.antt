-- ===== src/Kernel/Memory/Live.antt =====
-- What the heap promises its clients: it is a finite map from the addresses handed out to their
-- sizes, and the regions that it hands out are free.
use oxalyn.Base.{
  ℕ, ◌+◌, ◌≤◌, ◌<◌, ◌≡◌, ◌≢◌, refl, false, List, [], ◌∷◌, Option, none, some, ◌⊎◌, inl, length,
  arith, add64, ◌==◌, if◌then◌else◌,
}
use oxalyn.Kernel.Memory.{
  Block, heap_start, heap_size, carve, first_fit, kmalloc, merge_next, frees, free_after,
  free_first, kfree,
}
use oxalyn.Kernel.Memory.Layout.{Ordered, IsValid, Ordered-le}

-- The size of the region that is in use from address `q` on, if one is.
abbrev pub live : ℕ → List Block → Option ℕ
live q [] = none
live q (b ∷ bs) = if frees q b then some b.size else live q bs

abbrev heap_end : ℕ
heap_end = heap_start + heap_size

live_below : (lo q : ℕ) (bs : List Block) → Ordered lo heap_end bs → q < lo → live q bs ≡ none
live_below lo q [] o h = refl
live_below lo q (b ∷ bs) o h = ground (arith, live_below (b.ptr + b.size) q bs o.2)

pub first_fit-range :
    (size n lo : ℕ) (bs : List Block)
    → Ordered lo heap_end bs
    → let p = (first_fit size n bs).0 in (p ≡ 0) ⊎ ((lo ≤ p) × (p + size ≤ heap_end))
unfolding first_fit
first_fit-range size n lo [] o = inl refl
first_fit-range size n lo (b ∷ bs) o = ground (
  arith,
  first_fit-range size n (b.ptr + b.size) bs o.2,
  Ordered-le (b.ptr + b.size) heap_end bs o.2,
)

-- What is in use at `q` once `first_fit` has returned `p`.
abbrev granted : ℕ → ℕ → ℕ → List Block → Option ℕ
granted size q p bs = if p == 0 then live q bs else if q == p then some size else live q bs

carve-live :
    (size n q lo : ℕ) (b : Block) (bs : List Block)
    → 0 < lo
    → Ordered lo heap_end (b ∷ bs)
    → b.used ≡ false
    → live q (carve size n b bs) ≡ granted size q b.ptr (b ∷ bs)
unfolding carve
carve-live size n q lo b bs pos o e = ground (arith, live_below (b.ptr + b.size) q bs o.2)

first_fit-live :
    (size n q lo : ℕ) (bs : List Block)
    → 0 < lo
    → Ordered lo heap_end bs
    → live q (first_fit size n bs).1 ≡ granted size q (first_fit size n bs).0 bs
unfolding first_fit
first_fit-live size n q lo [] pos o = refl
first_fit-live size n q lo (b ∷ bs) pos o = ground (
  arith,
  carve-live size n q lo b bs pos o,
  first_fit-range size n (b.ptr + b.size) bs o.2,
  first_fit-live size n q (b.ptr + b.size) bs (omega arith) o.2,
)

live_range :
    (q n lo : ℕ) (bs : List Block)
    → Ordered lo heap_end bs
    → live q bs ≡ some n
    → (lo ≤ q) × (q + n ≤ heap_end)
live_range q n lo [] o l = absurd (cc)
live_range q n lo (b ∷ bs) o l =
    ground
      (arith, live_range q n (b.ptr + b.size) bs o.2, Ordered-le (b.ptr + b.size) heap_end bs o.2)

first_fit-apart :
    (size m q n lo : ℕ) (bs : List Block)
    → Ordered lo heap_end bs
    → live q bs ≡ some n
    → let p = (first_fit size m bs).0 in (p ≡ 0) ⊎ ((p + size ≤ q) ⊎ (q + n ≤ p))
unfolding first_fit
first_fit-apart size m q n lo [] o l = inl refl
first_fit-apart size m q n lo (b ∷ bs) o l = ground (
  arith,
  live_range q n (b.ptr + b.size) bs o.2,
  first_fit-range size m (b.ptr + b.size) bs o.2,
  first_fit-apart size m q n (b.ptr + b.size) bs o.2,
)

merge_next-live :
    (q : ℕ) (b : Block) (bs : List Block) → b.used ≡ false → live q (merge_next b bs) ≡ live q bs
unfolding merge_next
merge_next-live q b [] e = ground arith
merge_next-live q b (n ∷ bs) e = ground arith

-- What is in use at `q` once `p` has been freed.
abbrev revoked : ℕ → ℕ → List Block → Option ℕ
revoked q p bs = if q == p then none else live q bs

free_after-live :
    (p q lo : ℕ) (prev : Block) (bs : List Block)
    → Ordered lo heap_end (prev ∷ bs)
    → frees p prev ≡ false
    → live q (free_after p prev bs) ≡ revoked q p (prev ∷ bs)
unfolding free_after
free_after-live p q lo prev [] o h = ground arith
free_after-live p q lo prev (b ∷ bs) o h = ground (
  arith,
  free_after-live p q (prev.ptr + prev.size) b bs o.2,
  live_below (b.ptr + b.size) q bs o.2.2,
  merge_next-live q (record b { used = false }) bs,
  merge_next-live q (record prev { size = add64 prev.size b.size }) bs,
)

free_first-live :
    (p q lo : ℕ) (bs : List Block)
    → Ordered lo heap_end bs
    → live q (free_first p bs) ≡ revoked q p bs
unfolding free_first
free_first-live p q lo [] o = ground arith
free_first-live p q lo (b ∷ bs) o = ground (
  arith,
  free_after-live p q lo b bs o,
  live_below (b.ptr + b.size) q bs o.2,
  merge_next-live q (record b { used = false }) bs,
)

live_zero : (blocks : List Block) → IsValid blocks → live 0 blocks ≡ none
live_zero blocks v = live_below heap_start 0 blocks v.ordered (omega arith)

-- An address that `kmalloc` returns is in use from then on, with the size asked for, and nothing
-- else changes; where it returns NULL nothing changes at all.
pub live-kmalloc :
    (blocks : List Block) (size q : ℕ)
    → IsValid blocks
    → let (p, blocks') = kmalloc size blocks in
      live q blocks'
      ≡ (if p == 0 then live q blocks else if q == p then some size else live q blocks)
unfolding kmalloc
live-kmalloc blocks size q v =
    ground (arith, first_fit-live size (length blocks) q heap_start blocks (omega arith) v.ordered)

-- The region that `kmalloc` returns lies inside the heap, and no region in use overlaps it.
pub kmalloc_fresh :
    (blocks : List Block) (size q n : ℕ)
    → IsValid blocks
    → let p = (kmalloc size blocks).0 in
      p ≢ 0
      → live q blocks ≡ some n
      → (heap_start ≤ p) × (p + size ≤ heap_start + heap_size) × ((p + size ≤ q) ⊎ (q + n ≤ p))
unfolding kmalloc
kmalloc_fresh blocks size q n v h l = ground (
  arith,
  first_fit-range size (length blocks) heap_start blocks v.ordered,
  first_fit-apart size (length blocks) q n heap_start blocks v.ordered l,
)

-- `kfree` of an address ends its use, and changes nothing else.
pub live-kfree :
    (blocks : List Block) (p q : ℕ)
    → IsValid blocks
    → live q (kfree p blocks) ≡ (if q == p then none else live q blocks)
unfolding kfree
live-kfree blocks p q v =
    ground (arith, free_first-live p q heap_start blocks v.ordered, live_zero blocks v)
