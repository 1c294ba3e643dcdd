-- ===== src/Kernel/Search.antt =====
-- The searches of the kernel's tables: `for (i = 0; i < n; i++) if (test(i)) return i;`, and the
-- comparison of names that they use. A name is the list of its bytes before the terminator.
pub mod Laws
use oxalyn.Base.{
  ℕ, zero, suc, ◌+◌, ◌≤◌, ◌<◌, ◌≡◌, ◌≢◌, refl, subst, sym, ap, ◌∙◌, Bool, true, false, ◌&&◌, ◌||◌,
  Option, none, some, List, [], ◌∷◌, ◌==◌, if◌then◌else◌, inl, inr, Bool-cases, Option-cases, has,
  update, update_self, update-ne, take, arith, ==_iff, ◌⊎◌,
}

-- `kstrcmp(a, b) == 0`.
unfoldable pub same : List ℕ → List ℕ → Bool
same [] [] = true
same [] (y ∷ ys) = false
same (x ∷ xs) [] = false
same (x ∷ xs) (y ∷ ys) = let rest = same xs ys in (x == y) && rest

-- The first of the `left` entries from `i` on that passes the test.
unfoldable pub find : ℕ → ℕ → (ℕ → Bool) → Option ℕ
find zero i f = none
find (suc left) i f = let rest = find left (i + 1) f in if f i then some i else rest
