-- ===== src/Asm/Sizes/Registers.antt =====
-- The branches of process_line of asm.c for one instruction, and those for a fixed number of
-- instructions, have one size in both passes.
use oxalyn.Base.{ℕ, suc, subst, arith, true, false}
use oxalyn.Asm.{encode}
use oxalyn.Asm.Op.{op_jalr, op_li, op_add, op_sub, op_xor, op_load, op_store, op_call}
use oxalyn.Asm.Text.{Text}
use oxalyn.Asm.State.{Step, push, advance, room_for, finish}
use oxalyn.Asm.Branches.{
  Handler, asm_bare, asm_one, asm_two, asm_three, asm_imm, asm_reg_imm, asm_call, asm_neg,
  asm_ret_l, asm_not, asm_inc, asm_push, asm_pop, minus_one,
}
use oxalyn.Asm.Growth.{Grows, Sized, push-Grows, advance-Grows, room_for-Grows, finish_insn}
use oxalyn.Asm.Sizes.{one_word, req_reg-Sized, req_imm-Sized}

abbrev pub SizedHandler : Handler → Type 0
SizedHandler h = (p : Text) → Sized (h p)

pub asm_bare-Sized : (op : ℕ) → SizedHandler (asm_bare op)
unfolding asm_bare
asm_bare-Sized op p = one_word (encode op 0 0 0 0)

pub asm_one-Sized : (op : ℕ) → SizedHandler (asm_one op)
unfolding asm_one
asm_one-Sized op p = req_reg-Sized p _ λ rd p. one_word (encode op rd 0 0 0)

pub asm_two-Sized : (op : ℕ) → SizedHandler (asm_two op)
unfolding asm_two
asm_two-Sized op p =
    req_reg-Sized p _ λ rd p. req_reg-Sized p _ λ rs1 p. one_word (encode op rd rs1 0 0)

pub asm_three-Sized : (op : ℕ) → SizedHandler (asm_three op)
unfolding asm_three
asm_three-Sized op p =
    req_reg-Sized p _ λ rd p.
      req_reg-Sized p _ λ rs1 p. req_reg-Sized p _ λ rs2 p. one_word (encode op rd rs1 rs2 0)

pub asm_imm-Sized : (op : ℕ) → SizedHandler (asm_imm op)
unfolding asm_imm
asm_imm-Sized op p =
    req_reg-Sized p _ λ r p. req_imm-Sized false p _ λ imm. finish_insn (encode op r 0 0 imm)

pub asm_reg_imm-Sized : (op : ℕ) → SizedHandler (asm_reg_imm op)
unfolding asm_reg_imm
asm_reg_imm-Sized op p = req_reg-Sized p _ λ rd p.
    req_reg-Sized p _ λ rs1 p. req_imm-Sized false p _ λ imm. finish_insn (encode op rd rs1 0 imm)

pub asm_call-Sized : SizedHandler asm_call
unfolding asm_call
asm_call-Sized p = req_imm-Sized true p _ λ imm. finish_insn (encode op_call 0 0 0 imm)

pub asm_neg-Sized : SizedHandler asm_neg
unfolding asm_neg
asm_neg-Sized p =
    req_reg-Sized p _ λ rd p. req_reg-Sized p _ λ rs1 p. one_word (encode op_sub rd 0 rs1 0)

pub asm_ret_l-Sized : SizedHandler asm_ret_l
unfolding asm_ret_l
asm_ret_l-Sized p = req_reg-Sized p _ λ rs1 p. one_word (encode op_jalr 0 rs1 0 0)

-- A pushed word whose address is counted at once.
pub push-advance :
    (k n insn : ℕ) (f : Step) → Grows k n f → Grows (suc k) (suc n) (push insn (advance 1 f))
push-advance k n insn f h =
    let moved : Grows k (suc n) (advance 1 f) =
      subst (λ (t : ℕ). Grows k t (advance 1 f)) (omega arith) (advance-Grows k n 1 f h) in
    push-Grows k (suc n) insn (advance 1 f) moved

two_words : (insn last : ℕ) → Sized (room_for 2 (push insn (advance 1 (finish 0 last))))
two_words insn last =
    (2, room_for-Grows 2 2 2 _ (push-advance 1 1 insn (finish 0 last) (finish_insn last)))

pub asm_not-Sized : SizedHandler asm_not
unfolding asm_not
asm_not-Sized p = req_reg-Sized p _ λ rd p.
    req_reg-Sized p _ λ rs1 p. two_words (encode op_li 1 0 0 minus_one) (encode op_xor rd rs1 1 0)

pub asm_inc-Sized : (by : ℕ) → SizedHandler (asm_inc by)
unfolding asm_inc
asm_inc-Sized by p =
    req_reg-Sized p _ λ rd p. two_words (encode op_li 1 0 0 by) (encode op_add rd rd 1 0)

pub asm_push-Sized : SizedHandler asm_push
unfolding asm_push
asm_push-Sized p = req_reg-Sized p _ λ rs1 p. (
  3,
  room_for-Grows 3 3 2 _ (
      push-advance 2 2 (encode op_store rs1 31 0 0) _ (
        push-advance 1 1 (encode op_li 1 0 0 minus_one) _ (finish_insn (encode op_add 31 31 1 0)))),
)

pub asm_pop-Sized : SizedHandler asm_pop
unfolding asm_pop
asm_pop-Sized p = req_reg-Sized p _ λ rd p. (
  3,
  room_for-Grows 3 3 3 _ (
      push-Grows 2 3 (encode op_li 1 0 0 1) _ (
        push-Grows 1 3 (encode op_add 31 31 1 0) _
          (advance-Grows 1 1 2 _ (finish_insn (encode op_load rd 31 0 0))))),
)
