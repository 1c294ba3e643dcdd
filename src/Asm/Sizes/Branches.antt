-- ===== src/Asm/Sizes/Branches.antt =====
-- The branches of process_line of asm.c that load values and addresses, and the directives, have one
-- size in both passes.
use oxalyn.Base.{
  ℕ, zero, suc, ◌+◌, ◌-◌, ◌^◌, ◌≤◌, refl, subst, arith, inl, inr, Bool, Bool-cases, ◌++◌, ◌==◌, ltb,
  if◌then◌else◌, length, length-append, length-replicate, replicate, u32,
}
use oxalyn.Base.Int.{ℤ, pos, negsuc, unsigned64}
use oxalyn.Asm.{encode, fits_bits, movi_bytes, movi_words}
use oxalyn.Asm.Op.{op_jmp, op_jz, op_jnz, op_jalr, op_li}
use oxalyn.Asm.Text.{Text, parse_number, parse_number64}
use oxalyn.Asm.State.{Asm, Step, max_insns, label_find, finish}
use oxalyn.Asm.Branches.{
  load_value, movi_label, asm_li, asm_movi, jump_label, asm_jmp, asm_branch, li_number, asm_target,
  asm_compare, word_value, asm_word, zero_words, zero_count, asm_zero, asm_unknown,
}
use oxalyn.Asm.Growth.{
  unchanged, Ends-rebase, Grows, Sized, asm_error-Grows, push-Grows, advance-Grows, room_for-Grows,
  emit_movi-Grows, finish_insn, finish_direct,
}
use oxalyn.Asm.Sizes.{
  either-Grows, asm_error-Sized, one_word, require-Sized, either-Sized, resolve-Grows,
  req_reg-Sized, req_token-Sized,
}
use oxalyn.Asm.Sizes.Registers.{SizedHandler, push-advance}

finish_words : (d insn : ℕ) → 1 ≤ d → Grows 0 d (finish d insn)
finish_words zero insn h = absurd (omega arith)
finish_words (suc d) insn h = finish_direct d insn

movi_words-positive : (bytes : ℕ) → 1 ≤ movi_words bytes
unfolding movi_words
movi_words-positive bytes = ground arith

load_value-Grows :
    (bytes rd : ℕ) (v : ℤ) → Grows (movi_words bytes) (movi_words bytes) (load_value bytes rd v)
unfolding load_value
load_value-Grows bytes rd v =
    let w = movi_words bytes in
    subst (λ (k : ℕ). Grows k w (load_value bytes rd v)) (omega arith)
      (emit_movi-Grows 0 w rd bytes v (finish w 0) (finish_words w 0 (movi_words-positive bytes)))

load_value-Sized : (bytes rd : ℕ) (v : ℤ) → Sized (load_value bytes rd v)
load_value-Sized bytes rd v = (movi_words bytes, load_value-Grows bytes rd v)

li_number-Sized : (rd : ℕ) (v : ℤ) → Sized (li_number rd v)
unfolding li_number
li_number-Sized rd v = elim (Bool-cases (fits_bits v 11)) [
  | inl e ↦ rw e (one_word (encode op_li rd 0 0 (u32 (unsigned64 v))))
  | inr e ↦ rw e (load_value-Sized (movi_bytes v) rd v)
]

pub asm_li-Sized : SizedHandler asm_li
unfolding asm_li
asm_li-Sized p = req_reg-Sized p _ λ rd p. req_token-Sized p _ λ t.
    either-Sized (parse_number64 t) _ _ (li_number-Sized rd) (
      movi_words 2,
      resolve-Grows (movi_words 2) (movi_words 2) t _ λ a. load_value-Grows 2 rd (pos a),
    )

movi_label-Grows :
    (k n : ℕ) (t : Text) (next : ℕ → Step)
    → ((a : ℕ) → Grows k n (next a))
    → Grows k n (movi_label t next)
unfolding movi_label
movi_label-Grows k n t next h pass s =
    either-Grows k n (label_find t s) next _ h
      (λ pass s. elim (Bool-cases (pass == 2)) [
        | inl e ↦ rw e (asm_error-Grows k n pass s)
        | inr e ↦ rw e (h 0 pass s)
      ])
      pass s

pub asm_movi-Sized : SizedHandler asm_movi
unfolding asm_movi
asm_movi-Sized p = req_reg-Sized p _ λ rd p. req_token-Sized p _ λ t.
    either-Sized (parse_number64 t) _ _ (λ v. load_value-Sized (movi_bytes v) rd v)
      (
        movi_words 2,
        movi_label-Grows (movi_words 2) (movi_words 2) t _ λ a. load_value-Grows 2 rd (pos a),
      )

jump_label-Grows : (words a : ℕ) → Grows 5 (words + 1) (jump_label words a)
unfolding jump_label movi_words
jump_label-Grows words a =
    emit_movi-Grows 1 (words + 1) 28 2 (pos a) _
      (advance-Grows 1 1 words _ (finish_insn (encode op_jalr 0 28 0 0)))

pub asm_jmp-Sized : SizedHandler asm_jmp
unfolding asm_jmp movi_words
asm_jmp-Sized p = req_token-Sized p _ λ t.
    either-Sized (parse_number t) _ _ (λ imm. one_word (encode op_jmp 0 0 0 imm))
      (5, resolve-Grows 5 5 t _ λ a. jump_label-Grows 4 a)

pub asm_branch-Sized : (op skip : ℕ) → SizedHandler (asm_branch op skip)
unfolding asm_branch
asm_branch-Sized op skip p = req_reg-Sized p _ λ rs1 p. req_token-Sized p _ λ t.
    either-Sized (parse_number t) _ _ (λ imm. one_word (encode op rs1 0 0 imm))
      (
        6,
        resolve-Grows 6 6 t _ λ a.
            room_for-Grows 6 6 6 _
              (push-Grows 5 6 (encode skip rs1 0 0 5) _ (jump_label-Grows 5 a)),
      )

asm_target-Sized : (t : Text) → Sized (asm_target t)
unfolding asm_target movi_words
asm_target-Sized t =
    either-Sized (parse_number t) _ _ (λ v. one_word (encode op_jnz 1 0 0 (u32 (v + 2 ^ 32 - 1))))
      (6, resolve-Grows 6 6 t _ λ a. push-Grows 5 6 (encode op_jz 1 0 0 5) _ (jump_label-Grows 5 a))

pub asm_compare-Sized : (op : ℕ) (swap_args : Bool) → SizedHandler (asm_compare op swap_args)
unfolding asm_compare
asm_compare-Sized op swap_args p = req_reg-Sized p _ λ rs1 p. req_reg-Sized p _ λ rs2 p.
    req_token-Sized p _ λ t.
      let (n, grows) = asm_target-Sized t in
      (
        suc n,
        room_for-Grows (suc n) (suc n) 1 _ (
            push-advance n n (if swap_args then encode op 1 rs2 rs1 0 else encode op 1 rs1 rs2 0)
              (asm_target t) grows),
      )

word_value-Grows : (insn : ℕ) → Grows 1 1 (word_value insn)
unfolding word_value
word_value-Grows insn =
    room_for-Grows 1 1 1 _ (push-Grows 0 1 insn (finish 1 0) (finish_direct 0 0))

pub asm_word-Sized : SizedHandler asm_word
unfolding asm_word
asm_word-Sized p = req_token-Sized p _ λ t.
    either-Sized (parse_number64 t) _ _ (λ v. (1, word_value-Grows (u32 (unsigned64 v))))
      (1, resolve-Grows 1 1 t word_value word_value-Grows)

zero_words-Ends :
    (k n count : ℕ) → Grows k n (finish count 0) → Grows (count + k) n (zero_words count)
unfolding zero_words
zero_words-Ends k n count h pass s = elim (Bool-cases (ltb max_insns (length s.code + count))) [
  | inl e ↦ rw e (asm_error-Grows (count + k) n pass s)
  | inr e ↦ elim (Bool-cases (pass == 2)) [
    | inl b ↦
        let t : Asm = record s { code = s.code ++ replicate count 0 } in
        rw (e, b)
          (Ends-rebase k n (count + k) n pass s t (finish count 0 pass t) (unchanged s.labels) refl
            refl
            (λ p.
              omega
                (arith, length-append s.code (replicate count 0), length-replicate {A = ℕ} count 0))
            (h pass t))
    | inr b ↦
        rw (e, b)
          (Ends-rebase k n (count + k) n pass s s (finish count 0 pass s) (unchanged s.labels) refl
            refl (λ p. ground arith) (h pass s))
  ]
]

zero_words-Sized : (count : ℕ) → Sized (zero_words count)
zero_words-Sized zero = (1, zero_words-Ends 1 1 0 (finish_insn 0))
zero_words-Sized (suc d) = (
  suc d,
  subst (λ (k : ℕ). Grows k (suc d) (zero_words (suc d))) (omega arith)
      (zero_words-Ends 0 (suc d) (suc d) (finish_direct d 0)),
)

zero_count-Sized : (v : ℤ) → Sized (zero_count v)
unfolding zero_count
zero_count-Sized (negsuc n) = asm_error-Sized
zero_count-Sized (pos n) = elim (Bool-cases (ltb max_insns n)) [
  | inl e ↦ rw e asm_error-Sized
  | inr e ↦ rw e (zero_words-Sized n)
]

pub asm_zero-Sized : SizedHandler asm_zero
unfolding asm_zero
asm_zero-Sized p =
    req_token-Sized p _ λ t. require-Sized (parse_number64 t) zero_count zero_count-Sized

pub asm_unknown-Sized : SizedHandler asm_unknown
unfolding asm_unknown
asm_unknown-Sized p = asm_error-Sized
