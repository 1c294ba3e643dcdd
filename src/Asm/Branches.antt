-- ===== src/Asm/Branches.antt =====
-- The branches of process_line of asm.c, each from the text behind the mnemonic on.
use oxalyn.Base.{
  ℕ, ◌+◌, ◌-◌, ◌^◌, Bool, true, false, ◌++◌, ◌==◌, ltb, if◌then◌else◌, length, u32, replicate,
}
use oxalyn.Base.Int.{ℤ, pos, negsuc, unsigned64}
use oxalyn.Asm.{encode, fits_bits, movi_bytes, movi_words}
use oxalyn.Asm.Op.{
  op_add, op_sub, op_xor, op_load, op_store, op_li, op_jmp, op_jz, op_jnz, op_call, op_jalr,
}
use oxalyn.Asm.Text.{Text, max_label_len, next_token, parse_number, parse_number64}
use oxalyn.Asm.State.{
  Step, max_insns, asm_error, label_find, require, either, resolve_label_address, req_reg,
  req_imm_or_label, push, advance, room_for, emit_movi, finish,
}

abbrev pub Handler : Type 0
Handler = Text → Step

-- NOP, HALT, RET, ECALL, ERET, WFI and FENCE.
unfoldable pub asm_bare : ℕ → Handler
unfolding finish encode
asm_bare op p = finish 0 (encode op 0 0 0 0)

-- RAND and RFLAGS; CLR with ADD.
unfoldable pub asm_one : ℕ → Handler
unfolding req_reg finish encode
asm_one op p = req_reg p λ rd p. finish 0 (encode op rd 0 0 0)

-- AESE; MOV with ADD, CALL.R with JALR.
unfoldable pub asm_two : ℕ → Handler
unfolding req_reg finish encode
asm_two op p = req_reg p λ rd p. req_reg p λ rs1 p. finish 0 (encode op rd rs1 0 0)

-- The instructions with three registers.
unfoldable pub asm_three : ℕ → Handler
unfolding req_reg finish encode
asm_three op p =
    req_reg p λ rd p. req_reg p λ rs1 p. req_reg p λ rs2 p. finish 0 (encode op rd rs1 rs2 0)

-- OUT, IN, CSRW, CSRR and LUI.
unfoldable pub asm_imm : ℕ → Handler
unfolding req_reg req_imm_or_label finish encode
asm_imm op p = req_reg p λ r p. req_imm_or_label false p λ imm. finish 0 (encode op r 0 0 imm)

-- Two registers and an immediate: loads, stores, shifts, bit instructions, JALR.
unfoldable pub asm_reg_imm : ℕ → Handler
unfolding req_reg req_imm_or_label finish encode
asm_reg_imm op p =
    req_reg p
      λ rd p. req_reg p λ rs1 p. req_imm_or_label false p λ imm. finish 0 (encode op rd rs1 0 imm)

unfoldable pub asm_call : Handler
unfolding req_imm_or_label finish encode
asm_call p = req_imm_or_label true p λ imm. finish 0 (encode op_call 0 0 0 imm)

unfoldable pub asm_neg : Handler
unfolding req_reg finish encode
asm_neg p = req_reg p λ rd p. req_reg p λ rs1 p. finish 0 (encode op_sub rd 0 rs1 0)

-- RET.L
unfoldable pub asm_ret_l : Handler
unfolding req_reg finish encode
asm_ret_l p = req_reg p λ rs1 p. finish 0 (encode op_jalr 0 rs1 0 0)

-- -1 as an `int32_t`.
abbrev pub minus_one : ℕ
minus_one = 0xFFFFFFFF

unfoldable pub asm_not : Handler
unfolding req_reg room_for push advance finish encode
asm_not p = req_reg p λ rd p. req_reg p λ rs1 p.
    room_for 2
      (push (encode op_li 1 0 0 minus_one) (advance 1 (finish 0 (encode op_xor rd rs1 1 0))))

-- INC with 1, DEC with -1.
unfoldable pub asm_inc : ℕ → Handler
unfolding req_reg room_for push advance finish encode
asm_inc by p = req_reg p λ rd p.
    room_for 2 (push (encode op_li 1 0 0 by) (advance 1 (finish 0 (encode op_add rd rd 1 0))))

unfoldable pub asm_push : Handler
unfolding req_reg room_for push advance finish encode
asm_push p = req_reg p λ rs1 p. room_for 2 (
    push (encode op_store rs1 31 0 0) (
      advance 1
        (push (encode op_li 1 0 0 minus_one) (advance 1 (finish 0 (encode op_add 31 31 1 0))))))

unfoldable pub asm_pop : Handler
unfolding req_reg room_for push advance finish encode
asm_pop p = req_reg p λ rd p. room_for 3 (
    push (encode op_li 1 0 0 1)
      (push (encode op_add 31 31 1 0) (advance 2 (finish 0 (encode op_load rd 31 0 0)))))

-- The next token, which must be there.
unfoldable pub req_token : Text → (Text → Step) → Step
unfolding next_token require
req_token p next = require (next_token p max_label_len) λ (t, rest). next t

-- `direct_words = movi_words(bytes); if (!emit_movi_words(...)) return 0;`
unfoldable pub load_value : ℕ → ℕ → ℤ → Step
unfolding emit_movi finish movi_words
load_value bytes rd v = emit_movi rd v bytes (finish (movi_words bytes) 0)

-- The label of a MOVI, which has no aliases and is an error where it is missing.
unfoldable pub movi_label : Text → (ℕ → Step) → Step
unfolding label_find either asm_error
movi_label name next pass s =
    either (label_find name s) next
      (λ pass s. if pass == 2 then asm_error pass s else next 0 pass s) pass s

-- LI of a number: one word where eleven bits hold it.
unfoldable pub li_number : ℕ → ℤ → Step
unfolding load_value movi_bytes finish encode
li_number rd v =
    if fits_bits v 11
    then finish 0 (encode op_li rd 0 0 (u32 (unsigned64 v)))
    else load_value (movi_bytes v) rd v

unfoldable pub asm_li : Handler
unfolding req_reg req_token parse_number64 either resolve_label_address load_value li_number
asm_li p = req_reg p λ rd p. req_token p λ t.
    either (parse_number64 t) (li_number rd) (resolve_label_address t λ a. load_value 2 rd (pos a))

unfoldable pub asm_movi : Handler
unfolding req_reg req_token parse_number64 either movi_label load_value movi_bytes
asm_movi p = req_reg p λ rd p. req_token p λ t.
    either (parse_number64 t) (λ v. load_value (movi_bytes v) rd v)
      (movi_label t λ a. load_value 2 rd (pos a))

-- A jump to a label goes through R28.
unfoldable pub jump_label : ℕ → ℕ → Step
unfolding emit_movi advance finish encode
jump_label words address =
    emit_movi 28 (pos address) 2 (advance words (finish 0 (encode op_jalr 0 28 0 0)))

unfoldable pub asm_jmp : Handler
unfolding req_token parse_number either resolve_label_address jump_label movi_words finish encode
asm_jmp p = req_token p λ t.
    either (parse_number t) (λ imm. finish 0 (encode op_jmp 0 0 0 imm))
      (resolve_label_address t (jump_label (movi_words 2)))

-- JZ with JNZ as the test that skips the jump, and the other way round.
unfoldable pub asm_branch : ℕ → ℕ → Handler
unfolding req_reg req_token parse_number either resolve_label_address room_for push jump_label
    finish encode
asm_branch op skip p = req_reg p λ rs1 p. req_token p λ t.
    either (parse_number t) (λ imm. finish 0 (encode op rs1 0 0 imm))
      (resolve_label_address t λ a. room_for 6 (push (encode skip rs1 0 0 5) (jump_label 5 a)))

-- BGT, BLT, BGE, BLE, BEQ and BNE, behind the comparison.
unfoldable pub asm_target : Text → Step
unfolding parse_number either resolve_label_address push jump_label movi_words finish encode
asm_target t =
    either (parse_number t) (λ v. finish 0 (encode op_jnz 1 0 0 (u32 (v + 2 ^ 32 - 1))))
      (resolve_label_address t
        λ a. push (encode op_jz 1 0 0 (movi_words 2 + 1)) (jump_label (movi_words 2 + 1) a))

unfoldable pub asm_compare : ℕ → Bool → Handler
unfolding req_reg req_token room_for push advance asm_target encode
asm_compare op swap_args p = req_reg p λ rs1 p. req_reg p λ rs2 p. req_token p λ t. room_for 1 (
    push (if swap_args then encode op 1 rs2 rs1 0 else encode op 1 rs1 rs2 0)
      (advance 1 (asm_target t)))

unfoldable pub word_value : ℕ → Step
unfolding room_for push finish
word_value insn = room_for 1 (push insn (finish 1 0))

-- .WORD
unfoldable pub asm_word : Handler
unfolding req_token parse_number64 either resolve_label_address word_value
asm_word p = req_token p λ t.
    either (parse_number64 t) (λ v. word_value (u32 (unsigned64 v)))
      (resolve_label_address t word_value)

-- `insn_count + count > MAX_INSNS` is tested in both passes; the words are only written in the
-- second.
unfoldable pub zero_words : ℕ → Step
unfolding asm_error finish
zero_words count pass s =
    if ltb max_insns (length s.code + count)
    then asm_error pass s
    else finish count 0 pass
        (if pass == 2 then record s { code = s.code ++ replicate count 0 } else s)

unfoldable pub zero_count : ℤ → Step
unfolding asm_error zero_words
zero_count (pos n) = if ltb max_insns n then asm_error else zero_words n
zero_count (negsuc n) = asm_error

-- .ZERO. A count of 0 writes a NOP.
unfoldable pub asm_zero : Handler
unfolding req_token parse_number64 zero_count require
asm_zero p = req_token p λ t. require (parse_number64 t) zero_count

unfoldable pub asm_unknown : Handler
unfolding asm_error
asm_unknown p = asm_error
