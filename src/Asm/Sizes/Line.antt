-- ===== src/Asm/Sizes/Line.antt =====
-- Every line of asm.c has one size, in both passes: from the branches to process_line.
use oxalyn.Base.{
  ℕ, refl, inl, inr, true, false, ◌||◌, Bool-cases, List, [], ◌∷◌, ◌++◌, ◌==◌, leb, length, take,
}
use oxalyn.Kernel.Search.{same}
use oxalyn.Asm.Text.{Text, max_label_len, next_token, skip_ws, trim_line, to_upper}
use oxalyn.Asm.State.{Asm, Step, asm_error, max_labels, has_label, label_find, label_add, ok}
use oxalyn.Asm.Branches.{Handler}
use oxalyn.Asm.Line.{
  mnemonics, branch_of, is_section, process_mnemonic, process_tokens, skip_bom, name_span,
  behind_colon, define_label, process_rest, process_text, process_line,
}
use oxalyn.Asm.Growth.{Ends-rebase, Grows, Sized, asm_error-Grows, ok-Grows}
use oxalyn.Asm.Sizes.{either-Sized, either-Grows}
use oxalyn.Asm.Sizes.Registers.{
  SizedHandler, asm_bare-Sized, asm_one-Sized, asm_two-Sized, asm_three-Sized, asm_imm-Sized,
  asm_reg_imm-Sized, asm_call-Sized, asm_neg-Sized, asm_ret_l-Sized, asm_not-Sized, asm_inc-Sized,
  asm_push-Sized, asm_pop-Sized,
}
use oxalyn.Asm.Sizes.Branches.{
  asm_li-Sized, asm_movi-Sized, asm_jmp-Sized, asm_branch-Sized, asm_compare-Sized, asm_word-Sized,
  asm_zero-Sized, asm_unknown-Sized,
}
use oxalyn.Asm.Branches.{minus_one}
use oxalyn.Asm.Op

abbrev AllSized : List (Text × Handler) → Type 0
AllSized [] = Unit
AllSized ((name, h) ∷ hs) = SizedHandler h × AllSized hs

branch_of-AllSized :
    (hs : List (Text × Handler)) (tok : Text) → AllSized hs → SizedHandler (branch_of hs tok)
unfolding branch_of
branch_of-AllSized [] tok a p = asm_unknown-Sized p
branch_of-AllSized ((name, h) ∷ hs) tok (here, others) p = elim (Bool-cases (same tok name)) [
  | inl e ↦ rw e (here p)
  | inr e ↦ rw e (branch_of-AllSized hs tok others p)
]

infixr 40 ◌⊗◌
abbrev ◌⊗◌ {ℓ κ} : {A : Type ℓ} {B : Type κ} → A → B → A × B
a ⊗ b = (a, b)

mnemonics-AllSized : AllSized mnemonics
unfolding mnemonics
mnemonics-AllSized =
    asm_word-Sized
    ⊗ asm_zero-Sized
    ⊗ asm_bare-Sized Op.op_nop
    ⊗ asm_bare-Sized Op.op_halt
    ⊗ asm_three-Sized Op.op_add
    ⊗ asm_three-Sized Op.op_sub
    ⊗ asm_three-Sized Op.op_and
    ⊗ asm_three-Sized Op.op_or
    ⊗ asm_three-Sized Op.op_xor
    ⊗ asm_three-Sized Op.op_mul
    ⊗ asm_three-Sized Op.op_div
    ⊗ asm_three-Sized Op.op_divu
    ⊗ asm_three-Sized Op.op_rem
    ⊗ asm_three-Sized Op.op_remu
    ⊗ asm_reg_imm-Sized Op.op_shl
    ⊗ asm_reg_imm-Sized Op.op_shr
    ⊗ asm_reg_imm-Sized Op.op_load
    ⊗ asm_reg_imm-Sized Op.op_store
    ⊗ asm_reg_imm-Sized Op.op_loadb
    ⊗ asm_reg_imm-Sized Op.op_storeb
    ⊗ asm_reg_imm-Sized Op.op_eload
    ⊗ asm_reg_imm-Sized Op.op_estore
    ⊗ asm_li-Sized
    ⊗ asm_jmp-Sized
    ⊗ asm_branch-Sized Op.op_jz Op.op_jnz
    ⊗ asm_branch-Sized Op.op_jnz Op.op_jz
    ⊗ asm_call-Sized
    ⊗ asm_bare-Sized Op.op_ret
    ⊗ asm_imm-Sized Op.op_out
    ⊗ asm_imm-Sized Op.op_in
    ⊗ asm_bare-Sized Op.op_ecall
    ⊗ asm_bare-Sized Op.op_eret
    ⊗ asm_imm-Sized Op.op_csrw
    ⊗ asm_imm-Sized Op.op_csrr
    ⊗ asm_one-Sized Op.op_rand
    ⊗ asm_one-Sized Op.op_rflags
    ⊗ asm_bare-Sized Op.op_wfi
    ⊗ asm_bare-Sized Op.op_fence
    ⊗ asm_bare-Sized Op.op_fence
    ⊗ asm_bare-Sized Op.op_fence
    ⊗ asm_two-Sized Op.op_aese
    ⊗ asm_three-Sized Op.op_hash
    ⊗ asm_imm-Sized Op.op_lui
    ⊗ asm_reg_imm-Sized Op.op_jalr
    ⊗ asm_three-Sized Op.op_cmpeq
    ⊗ asm_three-Sized Op.op_cmpne
    ⊗ asm_three-Sized Op.op_cmplt
    ⊗ asm_three-Sized Op.op_cmple
    ⊗ asm_three-Sized Op.op_cmpltu
    ⊗ asm_three-Sized Op.op_cmpleu
    ⊗ asm_reg_imm-Sized Op.op_bset
    ⊗ asm_reg_imm-Sized Op.op_bclr
    ⊗ asm_reg_imm-Sized Op.op_btest
    ⊗ asm_two-Sized Op.op_add
    ⊗ asm_one-Sized Op.op_add
    ⊗ asm_neg-Sized
    ⊗ asm_not-Sized
    ⊗ asm_inc-Sized 1
    ⊗ asm_inc-Sized minus_one
    ⊗ asm_movi-Sized
    ⊗ asm_push-Sized
    ⊗ asm_pop-Sized
    ⊗ asm_two-Sized Op.op_jalr
    ⊗ asm_ret_l-Sized
    ⊗ asm_compare-Sized Op.op_cmplt true
    ⊗ asm_compare-Sized Op.op_cmplt false
    ⊗ asm_compare-Sized Op.op_cmple true
    ⊗ asm_compare-Sized Op.op_cmple false
    ⊗ asm_compare-Sized Op.op_cmpeq false
    ⊗ asm_compare-Sized Op.op_cmpne false
    ⊗ tt

ok-Sized : Sized ok
ok-Sized = (0, ok-Grows)

process_mnemonic-Sized : (tok rest : Text) → Sized (process_mnemonic tok rest)
unfolding process_mnemonic
process_mnemonic-Sized tok rest = elim (Bool-cases (is_section tok)) [
  | inl e ↦ rw e ok-Sized
  | inr e ↦ rw e (branch_of-AllSized mnemonics tok mnemonics-AllSized rest)
]

pub process_rest-Sized : (p : Text) → Sized (process_rest p)
unfolding process_rest process_tokens
process_rest-Sized [] = ok-Sized
process_rest-Sized (c ∷ cs) =
    either-Sized (next_token (c ∷ cs) max_label_len) _ ok
      (λ (t, rest). process_mnemonic-Sized (to_upper t) rest) ok-Sized

label_add-Grows :
    (k n : ℕ) (name : Text) (next : Step)
    → Grows k n next
    → Grows k n (λ pass s. next pass (label_add name s.word_addr s))
unfolding label_add
label_add-Grows k n name next h pass s =
    elim (Bool-cases (leb max_labels (length s.labels) || has_label s.labels name)) [
      | inl e ↦ rw e (h pass s)
      | inr e ↦
          let t : Asm = record s {
            labels = s.labels ++ record { name = name; word_addr = s.word_addr } ∷ [];
          } in
          rw e (
            Ends-rebase k n k n pass s t (next pass t)
              (record { name = name; word_addr = s.word_addr } ∷ [], refl) refl refl (λ p. refl)
              (h pass t))
    ]

define_label-Grows :
    (k n : ℕ) (name : Text) (next : Step) → Grows k n next → Grows k n (define_label name next)
unfolding define_label
define_label-Grows k n name next h pass s = elim (Bool-cases (leb max_label_len (length name))) [
  | inl e ↦ rw e (asm_error-Grows k n pass s)
  | inr e ↦ elim (Bool-cases (pass == 1)) [
    | inr b ↦ rw (e, b) (h pass s)
    | inl b ↦
        rw (e, b)
          (either-Grows k n (label_find name s) (λ a. asm_error) _ (λ a. asm_error-Grows k n)
            (label_add-Grows k n name next h) pass s)
  ]
]

-- A line has one size: in whichever pass, and whatever labels there are, a line that is accepted
-- moves the word address on by it, and the second pass writes as many words.
pub process_line-Sized : (raw : Text) → Sized (process_line raw)
unfolding process_line process_text
process_line-Sized raw =
    let p = skip_ws (trim_line (skip_bom (take 255 raw))) in
    either-Sized (behind_colon (name_span p).1) _ (process_rest p)
      (λ q.
        let (n, grows) = process_rest-Sized (skip_ws q) in
        (n, define_label-Grows n n (name_span p).0 (process_rest (skip_ws q)) grows))
      (process_rest-Sized p)
