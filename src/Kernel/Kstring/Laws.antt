-- ===== src/Kernel/Kstring/Laws.antt =====
-- What the string functions do to strings that end.
use mathlib.Core.Path.{ap₂}
use oxalyn.Base.{
  ℕ, zero, suc, ◌+◌, ◌-◌, ◌<◌, ◌≡◌, ◌≢◌, ◌↔◌, refl, ap, true, false, ◌&&◌, List, [], ◌∷◌, some,
  ◌==◌, ltb, leb, if◌then◌else◌, inl, inr, Bool-cases, arith, update, length, cons-head, cons-tail,
}
use oxalyn.Base.Int.{ℤ, pos, sub_ℕ}
use oxalyn.Kernel.Kstring.{zero_fill, kstrncpy, kstrlen, kstrcmp}

-- The string `xs` stands at address `a`: its bytes are not 0, and a 0 follows.
abbrev pub StringAt : (ℕ → ℕ) → ℕ → List ℕ → Type 0
StringAt m a [] = m a ≡ 0
StringAt m a (x ∷ xs) = (m a ≡ x) × (x ≢ 0) × StringAt m (a + 1) xs

-- kstrlen finds the length, with one round more than there are bytes.
pub kstrlen_lem :
    (m : ℕ → ℕ) (a : ℕ) (xs : List ℕ)
    → StringAt m a xs
    → kstrlen (suc (length xs)) m a ≡ some (length xs)
unfolding kstrlen
kstrlen_lem m a [] h = rw h refl
kstrlen_lem m a (x ∷ xs) (e, n, h) =
    let more : (m a == 0) ≡ false = ground arith in rw (more, kstrlen_lem m (a + 1) xs h) refl

zero_fill-at :
    (m : ℕ → ℕ) (d n j : ℕ) → zero_fill m d n j ≡ (if leb d j && ltb j (d + n) then 0 else m j)
unfolding zero_fill update
zero_fill-at m d zero j = ground arith
zero_fill-at m d (suc n) j = ground (arith, zero_fill-at (update m d 0) (d + 1) n j)

-- What kstrncpy leaves at every address, for a string shorter than `n`: the string, then zeros up
-- to and including address d + n, one past the n bytes it was given.
pub kstrncpy_short :
    (m : ℕ → ℕ) (d : ℕ) (src : ℕ → ℕ) (s n : ℕ) (xs : List ℕ) (j : ℕ)
    → StringAt src s xs
    → length xs < n
    → kstrncpy m d src s n j ≡ (
        if ltb j d
        then m j
        else if ltb j (d + length xs)
        then src (s + (j - d))
        else if leb j (d + n)
        then 0
        else m j)
unfolding kstrncpy update
kstrncpy_short m d src s zero xs j h l = absurd (omega arith)
kstrncpy_short m d src s (suc n) [] j h l =
    let ends : (src s == 0) ≡ true = ground arith in
    rw ends (ground (arith, zero_fill-at (update m d (src s)) (d + 1) (suc n) j))
kstrncpy_short m d src s (suc n) (x ∷ xs) j (e, k, h) l =
    let more : (src s == 0) ≡ false = ground arith in
    let rest = kstrncpy_short (update m d (src s)) (d + 1) src (s + 1) n xs j h (omega arith) in
    rw more (elim (Bool-cases (ltb d j)) [
      | inl above ↦
          let same : s + 1 + (j - (d + 1)) ≡ s + (j - d) = ground arith in
          ground (arith, rest, ap src same)
      | inr below ↦ ground (arith, rest, e, ap src (s-start s j d below))
    ])
  where
    s-start : (s j d : ℕ) → ltb d j ≡ false → s + (j - d) ≡ s
    s-start s j d h = ground arith

sub_ℕ-zero : (x y : ℕ) → (sub_ℕ x y ≡ pos 0) → x ≡ y
sub_ℕ-zero x y h = elim (Bool-cases (leb y x)) [ inl le ↦ ground arith | inr gt ↦ ground arith ]

-- kstrcmp returns, and what it returns is 0 exactly for equal strings.
pub kstrcmp_lem :
    (m : ℕ → ℕ) (a : ℕ) (k : ℕ → ℕ) (b : ℕ) (xs ys : List ℕ)
    → StringAt m a xs
    → StringAt k b ys
    → (r : ℤ) × (kstrcmp (suc (length xs)) m a k b ≡ some r) × ((r ≡ pos 0) ↔ (xs ≡ ys))
unfolding kstrcmp
kstrcmp_lem m a k b [] [] h g = rw (h, g) (pos 0, refl, (λ e. refl, λ e. refl))
kstrcmp_lem m a k b [] (y ∷ ys) h (e, n, g) =
    let stop : (m a == 0) ≡ true = ground arith in
    rw stop (
      sub_ℕ (m a) (k b),
      refl,
      (
        λ q. absurd (let same : m a ≡ k b = sub_ℕ-zero (m a) (k b) q in omega arith),
        λ q. absurd (ground arith),
      ),
    )
kstrcmp_lem m a k b (x ∷ xs) [] (e, n, h) g =
    let stop : (m a == k b) ≡ false = ground arith in
    let go : (m a == 0) ≡ false = ground arith in
    rw (go, stop)
      (
        sub_ℕ (m a) (k b),
        refl,
        (
          λ q. absurd (let same : m a ≡ k b = sub_ℕ-zero (m a) (k b) q in omega arith),
          λ q. absurd (ground arith),
        ),
      )
kstrcmp_lem m a k b (x ∷ xs) (y ∷ ys) (e, n, h) (e', n', g) =
    let go : (m a == 0) ≡ false = ground arith in
    let (r, returns, iff) = kstrcmp_lem m (a + 1) k (b + 1) xs ys h g in
    elim (Bool-cases (m a == k b)) [
      | inl same ↦
          rw (go, same)
            (
              r,
              returns,
              (
                λ q.
                    let tails : xs ≡ ys = iff.0 q in
                    let heads : x ≡ y = ground arith in ap₂ (λ u us. u ∷ us) heads tails,
                λ q. iff.1 (cons-tail q),
              ),
            )
      | inr apart ↦
          rw (go, apart)
            (
              sub_ℕ (m a) (k b),
              refl,
              (
                λ q. absurd (let same : m a ≡ k b = sub_ℕ-zero (m a) (k b) q in ground arith),
                λ q. absurd (let same : x ≡ y = cons-head q in ground arith),
              ),
            )
    ]
