-- ===== src/Kernel/Search/Laws.antt =====
-- What a search of a table finds, before and after an entry is written.
use oxalyn.Base.{
  ℕ, zero, suc, ◌+◌, ◌≤◌, ◌<◌, ◌≡◌, ◌≢◌, refl, subst, sym, ap, ◌∙◌, Bool, true, false, Option, none,
  some, List, [], ◌∷◌, ◌==◌, if◌then◌else◌, inl, inr, Bool-cases, update, update_self, update-ne,
  arith, ==_iff, ◌⊎◌,
}
use oxalyn.Kernel.Search.{same, find}

pub same_self : (xs : List ℕ) → same xs xs ≡ true
unfolding same
same_self [] = refl
same_self (x ∷ xs) = let ih = same_self xs in ground arith

pub same_eq : (xs ys : List ℕ) → same xs ys ≡ true → xs ≡ ys
unfolding same
same_eq [] [] h = refl
same_eq [] (y ∷ ys) h = ground arith
same_eq (x ∷ xs) [] h = ground arith
same_eq (x ∷ xs) (y ∷ ys) h = let ih = same_eq xs ys in ground arith

pub apart : (f : ℕ → Bool) (i j : ℕ) → f i ≡ true → f j ≡ false → i ≢ j
apart f i j h k e = let l : f j ≡ true = subst (λ x. f x ≡ true) e h in ground arith

pub alike : (i j : ℕ) → (j ≡ i) ⊎ (j ≢ i)
alike i j = elim (Bool-cases (j == i)) [
  | inl k ↦ inl ((==_iff j i).0 k)
  | inr k ↦ inr (λ e. ground arith)
]

pub find_congr : (n i : ℕ) (f g : ℕ → Bool) → ((j : ℕ) → f j ≡ g j) → find n i f ≡ find n i g
unfolding find
find_congr zero i f g h = refl
find_congr (suc n) i f g h = rw (h i, find_congr n (i + 1) f g h) refl

pub find_passes : (n i j : ℕ) (f : ℕ → Bool) → find n i f ≡ some j → f j ≡ true
unfolding find
find_passes zero i j f h = ground arith
find_passes (suc n) i j f h = let ih = find_passes n (i + 1) j f in ground arith

pub find_absent : (n i j : ℕ) (f : ℕ → Bool) → find n i f ≡ none → i ≤ j → j < i + n → f j ≡ false
unfolding find
find_absent zero i j f h lo hi = absurd (omega arith)
find_absent (suc n) i j f h lo hi = elim (Bool-cases (f i)) [
  | inl t ↦
      let h' : some i ≡ none = subst (λ b. (if b then some i else find n (i + 1) f) ≡ none) t h in
      ground arith
  | inr e ↦
      let h' : find n (i + 1) f ≡ none =
        subst (λ b. (if b then some i else find n (i + 1) f) ≡ none) e h in
      elim (Bool-cases (j == i)) [
        | inl k ↦ ap f ((==_iff j i).0 k) ∙ e
        | inr k ↦ find_absent n (i + 1) j f h' (ground arith) (omega arith)
      ]
]

pub find_range : (n i j : ℕ) (f : ℕ → Bool) → find n i f ≡ some j → (i ≤ j) × (j < i + n)
unfolding find
find_range zero i j f h = ground arith
find_range (suc n) i j f h = let ih = find_range n (i + 1) j f in ground arith

pub find_only :
    (n i j : ℕ) (f : ℕ → Bool)
    → f j ≡ true
    → i ≤ j
    → j < i + n
    → ((k : ℕ) → i ≤ k → k < i + n → k ≢ j → f k ≡ false)
    → find n i f ≡ some j
unfolding find
find_only zero i j f h lo hi others = absurd (omega arith)
find_only (suc n) i j f h lo hi others = elim (Bool-cases (f i)) [
  | inl t ↦ elim (alike i j) [
    | inl k ↦ simp t (ap some (sym k))
    | inr k ↦
        let e : f i ≡ false = others i (omega arith) (omega arith) (λ q. k (sym q)) in ground arith
  ]
  | inr e ↦
      let ne = apart f j i h e in
      let lo' : i + 1 ≤ j = omega arith in
      simp e (
        find_only n (i + 1) j f h lo' (omega arith)
          (λ k a b c. others k (omega arith) (omega arith) c))
]

pub find_nowhere : (n i : ℕ) (f : ℕ → Bool) → ((j : ℕ) → f j ≡ false) → find n i f ≡ none
unfolding find
find_nowhere zero i f h = refl
find_nowhere (suc n) i f h = rw (h i) (find_nowhere n (i + 1) f h)

-- A table of entries, each of which holds at most one name: `holds e n` says that the entry `e` is in
-- use under the name `n`.
module _ {ℓ} {A : Type ℓ} (holds : A → List ℕ → Bool) (max : ℕ) where
  abbrev pub find_in : (ℕ → A) → List ℕ → Option ℕ
  find_in t n = find max 0 (λ j. holds (t j) n)

  -- An entry is written that answers for the name as the old one did.
  pub find_in-update :
      (t : ℕ → A) (i : ℕ) (q : A) (n : List ℕ)
      → holds q n ≡ holds (t i) n
      → find_in (update t i q) n ≡ find_in t n
  find_in-update t i q n h =
      find_congr max 0 (λ j. holds (update t i q j) n) (λ j. holds (t j) n)
        λ j. elim (alike i j) [
          | inl k ↦ rw (k, update_self t i q) h
          | inr k ↦ rw (update-ne t i q j k) refl
        ]

  -- An entry is written under a name that was not in the table.
  pub find_in_new :
      (t : ℕ → A) (i : ℕ) (q : A) (n : List ℕ)
      → i < max
      → find_in t n ≡ none
      → holds q n ≡ true
      → find_in (update t i q) n ≡ some i
  find_in_new t i q n r absent h =
      find_only max 0 i (λ j. holds (update t i q j) n) (rw (update_self t i q) h) (omega arith)
        (omega arith)
        λ k a b c. rw (update-ne t i q k c) (find_absent max 0 k (λ j. holds (t j) n) absent a b)

  -- The only entry of a name is dropped.
  pub find_in_dropped :
      (t : ℕ → A) (i : ℕ) (q : A) (n : List ℕ)
      → holds q n ≡ false
      → ((j : ℕ) → j ≢ i → holds (t j) n ≡ false)
      → find_in (update t i q) n ≡ none
  find_in_dropped t i q n h others =
      find_nowhere max 0 (λ j. holds (update t i q j) n)
        λ j. elim (alike i j) [
          | inl k ↦ rw (k, update_self t i q) h
          | inr k ↦ rw (update-ne t i q j k) (others j k)
        ]
