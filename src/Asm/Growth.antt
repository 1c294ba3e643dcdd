-- ===== src/Asm/Growth.antt =====
-- What a step adds to the code and to the word address: the laws of the steps that asm.c shares.
use oxalyn.Base.{
  ℕ, zero, suc, ◌+◌, ◌-◌, ◌*◌, ◌≡◌, ◌<◌, refl, sym, ap, ◌∙◌, subst, arith, inl, inr, Bool, true,
  false, ◌&&◌, ◌||◌, Bool-cases, Option-cases, none, some, List, [], ◌∷◌, ◌++◌, ◌==◌, ltb,
  if◌then◌else◌, length, length-append, u32,
}
use oxalyn.Base.Int.{ℤ, unsigned64}
use mathlib.Core.Option.{none-ne-some, some-injective}
use oxalyn.Asm.Op.{op_li}
use oxalyn.Asm.{encode, emit_movi_words, movi_rest, movi_words, movi_temp, byte_at}
use mathlib.Core.List.{append-nil, append_assoc}
use oxalyn.Asm.State.{
  Label, Asm, Step, Outcome, failed, done, max_insns, asm_error, push, advance, room_for, emit_movi,
  finish, ok,
}

-- A table with further labels behind those it had.
abbrev pub Extends : List Label → List Label → Type 0
Extends ls ms = (xs : List Label) × (ms ≡ ls ++ xs)

pub unchanged : (ls : List Label) → Extends ls ls
unchanged ls = ([], sym (append-nil ls))

pub Extends-trans : (ls ms ns : List Label) → Extends ls ms → Extends ms ns → Extends ls ns
Extends-trans ls ms ns (xs, e) (ys, g) =
    (xs ++ ys, g ∙ ap (λ (l : List Label). l ++ ys) e ∙ append_assoc ls xs ys)

-- An error is counted. A step that ends well counts none, moves the word address on by `n`, and in
-- the second pass writes `k` words. Labels are only added.
abbrev pub Ends : ℕ → ℕ → ℕ → Asm → Outcome → Type 0
Ends k n pass s (failed t) = (s.error_count < t.error_count) × Extends s.labels t.labels
Ends k n pass s (done t) =
    (t.error_count ≡ s.error_count)
    × (u32 t.word_addr ≡ u32 (s.word_addr + n))
    × (pass ≡ 2 → length t.code ≡ length s.code + k)
    × Extends s.labels t.labels

abbrev pub Grows : ℕ → ℕ → Step → Type 0
Grows k n f = (pass : ℕ) (s : Asm) → Ends k n pass s (f pass s)

-- A step of one size, in both passes and with every label table.
abbrev pub Sized : Step → Type 0
Sized f = (n : ℕ) × Grows n n f

pub asm_error-Grows : (k n : ℕ) → Grows k n asm_error
unfolding asm_error
asm_error-Grows k n pass s = (omega arith, unchanged s.labels)

pub Ends-rebase :
    (k n k' n' pass : ℕ) (s t : Asm) (o : Outcome)
    → Extends s.labels t.labels
    → t.error_count ≡ s.error_count
    → (u32 (t.word_addr + n) ≡ u32 (s.word_addr + n'))
    → (pass ≡ 2 → length t.code + k ≡ length s.code + k')
    → Ends k n pass t o
    → Ends k' n' pass s o
Ends-rebase k n k' n' pass s t (failed x) ext e w c (h, more) =
    (omega arith, Extends-trans s.labels t.labels x.labels ext more)
Ends-rebase k n k' n' pass s t (done x) ext e w c (a, b, d, more) =
    (a ∙ e, b ∙ w, (λ p. d p ∙ c p), Extends-trans s.labels t.labels x.labels ext more)

pub push-Grows : (k n insn : ℕ) (f : Step) → Grows k n f → Grows (suc k) n (push insn f)
unfolding push
push-Grows k n insn f h pass s = elim (Bool-cases (pass == 2)) [
  | inl e ↦ rw e (
      Ends-rebase k n (suc k) n pass s (record s { code = s.code ++ insn ∷ [] })
        (f pass (record s { code = s.code ++ insn ∷ [] })) (unchanged s.labels) refl refl
        (λ p. omega (arith, length-append s.code (insn ∷ [])))
        (h pass (record s { code = s.code ++ insn ∷ [] })))
  | inr e ↦ rw e (
      Ends-rebase k n (suc k) n pass s s (f pass s) (unchanged s.labels) refl refl
        (λ p. ground arith) (h pass s))
]

pub advance-Grows : (k n a : ℕ) (f : Step) → Grows k n f → Grows k (a + n) (advance a f)
unfolding advance
advance-Grows k n a f h pass s =
    let t : Asm = record s { word_addr = u32 (s.word_addr + a) } in
    Ends-rebase k n k (a + n) pass s t (f pass t) (unchanged s.labels) refl (omega arith)
      (λ p. refl) (h pass t)

pub room_for-Grows : (k n r : ℕ) (f : Step) → Grows k n f → Grows k n (room_for r f)
unfolding room_for
room_for-Grows k n r f h pass s =
    elim (Bool-cases (pass == 2 && ltb max_insns (length s.code + r))) [
      | inl e ↦ rw e (asm_error-Grows k n pass s)
      | inr e ↦ rw e (h pass s)
    ]

length-movi_rest : (rd temp value i : ℕ) → length (movi_rest rd temp value i) ≡ 3 * i
unfolding movi_rest
length-movi_rest rd temp value zero = refl
length-movi_rest rd temp value (suc i) = omega (arith, length-movi_rest rd temp value i)

written_length :
    (too_large : Bool) (xs ws : List ℕ)
    → (if too_large then none else some xs) ≡ some ws
    → length ws ≡ length xs
written_length true xs ws e = absurd (none-ne-some ws e)
written_length false xs ws e = sym (ap length (some-injective xs ws e))

length-emit_movi_words :
    (rd : ℕ) (v : ℤ) (bytes room : ℕ) (ws : List ℕ)
    → emit_movi_words rd v bytes room ≡ some ws
    → length ws ≡ movi_words bytes
unfolding emit_movi_words movi_words
length-emit_movi_words rd v zero room ws e = absurd (ground arith)
length-emit_movi_words rd v (suc i) room ws e =
    let value = unsigned64 v in
    let temp = movi_temp rd in
    let written = encode op_li rd 0 0 (byte_at value i) ∷ movi_rest rd temp value i in
    let count : length written ≡ movi_words (suc i) =
      ground (arith, length-movi_rest rd temp value i) in
    written_length (ltb 8 (suc i) || ltb room (movi_words (suc i))) written ws e ∙ count

pub emit_movi-Grows :
    (k n rd bytes : ℕ) (v : ℤ) (f : Step)
    → Grows k n f
    → Grows (movi_words bytes + k) n (emit_movi rd v bytes f)
unfolding emit_movi
emit_movi-Grows k n rd bytes v f h pass s = elim (Bool-cases (bytes == 0 || ltb 8 bytes)) [
  | inl a ↦ rw a (asm_error-Grows (movi_words bytes + k) n pass s)
  | inr a ↦ elim (Bool-cases (pass == 2)) [
    | inr b ↦
        rw (a, b)
          (Ends-rebase k n (movi_words bytes + k) n pass s s (f pass s) (unchanged s.labels) refl
            refl (λ p. ground arith) (h pass s))
    | inl b ↦ elim (Option-cases (emit_movi_words rd v bytes (max_insns - length s.code))) [
      | inl e ↦ rw (a, b, e) (asm_error-Grows (movi_words bytes + k) n pass s)
      | inr (ws, e) ↦
          let t : Asm = record s { code = s.code ++ ws } in
          let count = length-emit_movi_words rd v bytes (max_insns - length s.code) ws e in
          rw (a, b, e)
            (Ends-rebase k n (movi_words bytes + k) n pass s t (f pass t) (unchanged s.labels) refl
              refl (λ p. omega (arith, count, length-append s.code ws)) (h pass t))
    ]
  ]
]

pub ok-Grows : Grows 0 0 ok
ok-Grows pass s = (refl, omega arith, (λ p. omega arith), unchanged s.labels)

pub finish_insn : (insn : ℕ) → Grows 1 1 (finish 0 insn)
unfolding finish
finish_insn insn =
    room_for-Grows 1 1 1 (push insn (advance 1 ok))
      (push-Grows 0 1 insn (advance 1 ok) (advance-Grows 0 0 1 ok ok-Grows))

pub finish_direct : (d insn : ℕ) → Grows 0 (suc d) (finish (suc d) insn)
unfolding finish
finish_direct d insn =
    let e : (suc d == 0) ≡ false = ground arith in
    rw e (
      subst (λ (t : ℕ). Grows 0 t (advance (suc d) ok)) (omega arith)
        (advance-Grows 0 0 (suc d) ok ok-Grows))
