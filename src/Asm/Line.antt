-- ===== src/Asm/Line.antt =====
-- The mnemonics of process_line of asm.c in the order of its tests, and the line around them.
use oxalyn.Base.{
  ℕ, ◌-◌, Bool, true, false, ◌&&◌, ◌||◌, Option, none, some, List, [], ◌∷◌, ◌==◌, leb,
  if◌then◌else◌, length, take,
}
use oxalyn.Kernel.Search.{same}
use oxalyn.Asm.Op.{
  op_add, op_aese, op_and, op_bclr, op_bset, op_btest, op_cmpeq, op_cmple, op_cmpleu, op_cmplt,
  op_cmpltu, op_cmpne, op_csrr, op_csrw, op_div, op_divu, op_ecall, op_eload, op_eret, op_estore,
  op_fence, op_halt, op_hash, op_in, op_jalr, op_jnz, op_jz, op_load, op_loadb, op_lui, op_mul,
  op_nop, op_or, op_out, op_rand, op_rem, op_remu, op_ret, op_rflags, op_shl, op_shr, op_store,
  op_storeb, op_sub, op_wfi, op_xor,
}
use oxalyn.Asm.Text.{Text, max_label_len, between, skip_ws, trim_line, next_token, to_upper}
use oxalyn.Asm.State.{Step, asm_error, either, label_find, label_add, ok}
use oxalyn.Asm.Branches.{
  Handler, minus_one, asm_unknown, asm_bare, asm_branch, asm_call, asm_compare, asm_imm, asm_inc,
  asm_jmp, asm_li, asm_movi, asm_neg, asm_not, asm_one, asm_pop, asm_push, asm_reg_imm, asm_ret_l,
  asm_three, asm_two, asm_word, asm_zero,
}

unfoldable pub mnemonics : List (Text × Handler)
mnemonics =
    ((b'.' ∷ b'W' ∷ b'O' ∷ b'R' ∷ b'D' ∷ []), asm_word)
    ∷ ((b'.' ∷ b'Z' ∷ b'E' ∷ b'R' ∷ b'O' ∷ []), asm_zero)
    ∷ ((b'N' ∷ b'O' ∷ b'P' ∷ []), asm_bare op_nop)
    ∷ ((b'H' ∷ b'A' ∷ b'L' ∷ b'T' ∷ []), asm_bare op_halt)
    ∷ ((b'A' ∷ b'D' ∷ b'D' ∷ []), asm_three op_add)
    ∷ ((b'S' ∷ b'U' ∷ b'B' ∷ []), asm_three op_sub)
    ∷ ((b'A' ∷ b'N' ∷ b'D' ∷ []), asm_three op_and)
    ∷ ((b'O' ∷ b'R' ∷ []), asm_three op_or)
    ∷ ((b'X' ∷ b'O' ∷ b'R' ∷ []), asm_three op_xor)
    ∷ ((b'M' ∷ b'U' ∷ b'L' ∷ []), asm_three op_mul)
    ∷ ((b'D' ∷ b'I' ∷ b'V' ∷ []), asm_three op_div)
    ∷ ((b'D' ∷ b'I' ∷ b'V' ∷ b'U' ∷ []), asm_three op_divu)
    ∷ ((b'R' ∷ b'E' ∷ b'M' ∷ []), asm_three op_rem)
    ∷ ((b'R' ∷ b'E' ∷ b'M' ∷ b'U' ∷ []), asm_three op_remu)
    ∷ ((b'S' ∷ b'H' ∷ b'L' ∷ []), asm_reg_imm op_shl)
    ∷ ((b'S' ∷ b'H' ∷ b'R' ∷ []), asm_reg_imm op_shr)
    ∷ ((b'L' ∷ b'O' ∷ b'A' ∷ b'D' ∷ []), asm_reg_imm op_load)
    ∷ ((b'S' ∷ b'T' ∷ b'O' ∷ b'R' ∷ b'E' ∷ []), asm_reg_imm op_store)
    ∷ ((b'L' ∷ b'O' ∷ b'A' ∷ b'D' ∷ b'B' ∷ []), asm_reg_imm op_loadb)
    ∷ ((b'S' ∷ b'T' ∷ b'O' ∷ b'R' ∷ b'E' ∷ b'B' ∷ []), asm_reg_imm op_storeb)
    ∷ ((b'E' ∷ b'L' ∷ b'O' ∷ b'A' ∷ b'D' ∷ []), asm_reg_imm op_eload)
    ∷ ((b'E' ∷ b'S' ∷ b'T' ∷ b'O' ∷ b'R' ∷ b'E' ∷ []), asm_reg_imm op_estore)
    ∷ ((b'L' ∷ b'I' ∷ []), asm_li)
    ∷ ((b'J' ∷ b'M' ∷ b'P' ∷ []), asm_jmp)
    ∷ ((b'J' ∷ b'Z' ∷ []), asm_branch op_jz op_jnz)
    ∷ ((b'J' ∷ b'N' ∷ b'Z' ∷ []), asm_branch op_jnz op_jz)
    ∷ ((b'C' ∷ b'A' ∷ b'L' ∷ b'L' ∷ []), asm_call)
    ∷ ((b'R' ∷ b'E' ∷ b'T' ∷ []), asm_bare op_ret)
    ∷ ((b'O' ∷ b'U' ∷ b'T' ∷ []), asm_imm op_out)
    ∷ ((b'I' ∷ b'N' ∷ []), asm_imm op_in)
    ∷ ((b'E' ∷ b'C' ∷ b'A' ∷ b'L' ∷ b'L' ∷ []), asm_bare op_ecall)
    ∷ ((b'E' ∷ b'R' ∷ b'E' ∷ b'T' ∷ []), asm_bare op_eret)
    ∷ ((b'C' ∷ b'S' ∷ b'R' ∷ b'W' ∷ []), asm_imm op_csrw)
    ∷ ((b'C' ∷ b'S' ∷ b'R' ∷ b'R' ∷ []), asm_imm op_csrr)
    ∷ ((b'R' ∷ b'A' ∷ b'N' ∷ b'D' ∷ []), asm_one op_rand)
    ∷ ((b'R' ∷ b'F' ∷ b'L' ∷ b'A' ∷ b'G' ∷ b'S' ∷ []), asm_one op_rflags)
    ∷ ((b'W' ∷ b'F' ∷ b'I' ∷ []), asm_bare op_wfi)
    ∷ ((b'F' ∷ b'E' ∷ b'N' ∷ b'C' ∷ b'E' ∷ []), asm_bare op_fence)
    ∷ ((b'F' ∷ b'E' ∷ b'N' ∷ b'C' ∷ b'E' ∷ b'.' ∷ b'I' ∷ []), asm_bare op_fence)
    ∷ ((b'F' ∷ b'E' ∷ b'N' ∷ b'C' ∷ b'E' ∷ b'.' ∷ b'R' ∷ b'W' ∷ []), asm_bare op_fence)
    ∷ ((b'A' ∷ b'E' ∷ b'S' ∷ b'E' ∷ []), asm_two op_aese)
    ∷ ((b'H' ∷ b'A' ∷ b'S' ∷ b'H' ∷ []), asm_three op_hash)
    ∷ ((b'L' ∷ b'U' ∷ b'I' ∷ []), asm_imm op_lui)
    ∷ ((b'J' ∷ b'A' ∷ b'L' ∷ b'R' ∷ []), asm_reg_imm op_jalr)
    ∷ ((b'C' ∷ b'M' ∷ b'P' ∷ b'E' ∷ b'Q' ∷ []), asm_three op_cmpeq)
    ∷ ((b'C' ∷ b'M' ∷ b'P' ∷ b'N' ∷ b'E' ∷ []), asm_three op_cmpne)
    ∷ ((b'C' ∷ b'M' ∷ b'P' ∷ b'L' ∷ b'T' ∷ []), asm_three op_cmplt)
    ∷ ((b'C' ∷ b'M' ∷ b'P' ∷ b'L' ∷ b'E' ∷ []), asm_three op_cmple)
    ∷ ((b'C' ∷ b'M' ∷ b'P' ∷ b'L' ∷ b'T' ∷ b'U' ∷ []), asm_three op_cmpltu)
    ∷ ((b'C' ∷ b'M' ∷ b'P' ∷ b'L' ∷ b'E' ∷ b'U' ∷ []), asm_three op_cmpleu)
    ∷ ((b'B' ∷ b'S' ∷ b'E' ∷ b'T' ∷ []), asm_reg_imm op_bset)
    ∷ ((b'B' ∷ b'C' ∷ b'L' ∷ b'R' ∷ []), asm_reg_imm op_bclr)
    ∷ ((b'B' ∷ b'T' ∷ b'E' ∷ b'S' ∷ b'T' ∷ []), asm_reg_imm op_btest)
    ∷ ((b'M' ∷ b'O' ∷ b'V' ∷ []), asm_two op_add)
    ∷ ((b'C' ∷ b'L' ∷ b'R' ∷ []), asm_one op_add)
    ∷ ((b'N' ∷ b'E' ∷ b'G' ∷ []), asm_neg)
    ∷ ((b'N' ∷ b'O' ∷ b'T' ∷ []), asm_not)
    ∷ ((b'I' ∷ b'N' ∷ b'C' ∷ []), asm_inc 1)
    ∷ ((b'D' ∷ b'E' ∷ b'C' ∷ []), asm_inc minus_one)
    ∷ ((b'M' ∷ b'O' ∷ b'V' ∷ b'I' ∷ []), asm_movi)
    ∷ ((b'P' ∷ b'U' ∷ b'S' ∷ b'H' ∷ []), asm_push)
    ∷ ((b'P' ∷ b'O' ∷ b'P' ∷ []), asm_pop)
    ∷ ((b'C' ∷ b'A' ∷ b'L' ∷ b'L' ∷ b'.' ∷ b'R' ∷ []), asm_two op_jalr)
    ∷ ((b'R' ∷ b'E' ∷ b'T' ∷ b'.' ∷ b'L' ∷ []), asm_ret_l)
    ∷ ((b'B' ∷ b'G' ∷ b'T' ∷ []), asm_compare op_cmplt true)
    ∷ ((b'B' ∷ b'L' ∷ b'T' ∷ []), asm_compare op_cmplt false)
    ∷ ((b'B' ∷ b'G' ∷ b'E' ∷ []), asm_compare op_cmple true)
    ∷ ((b'B' ∷ b'L' ∷ b'E' ∷ []), asm_compare op_cmple false)
    ∷ ((b'B' ∷ b'E' ∷ b'Q' ∷ []), asm_compare op_cmpeq false)
    ∷ ((b'B' ∷ b'N' ∷ b'E' ∷ []), asm_compare op_cmpne false)
    ∷ []

unfoldable pub branch_of : List (Text × Handler) → Text → Handler
branch_of [] tok = asm_unknown
branch_of ((name, h) ∷ hs) tok = let rest = branch_of hs tok in if same tok name then h else rest

-- The directives that write no code.
unfoldable pub is_section : Text → Bool
is_section tok =
    same tok (b'.' ∷ b'T' ∷ b'E' ∷ b'X' ∷ b'T' ∷ [])
    || same tok (b'.' ∷ b'D' ∷ b'A' ∷ b'T' ∷ b'A' ∷ [])
    || same tok (b'.' ∷ b'R' ∷ b'O' ∷ b'D' ∷ b'A' ∷ b'T' ∷ b'A' ∷ [])
    || same tok (b'.' ∷ b'B' ∷ b'S' ∷ b'S' ∷ [])

unfoldable pub process_mnemonic : Text → Text → Step
unfolding is_section branch_of mnemonics
process_mnemonic tok rest = if is_section tok then ok else branch_of mnemonics tok rest

unfoldable pub process_tokens : Text → Step
unfolding next_token to_upper either process_mnemonic
process_tokens p =
    either (next_token p max_label_len) (λ (t, rest). process_mnemonic (to_upper t) rest) ok

abbrev pub max_line_len : ℕ
max_line_len = 256

-- The bytes that editors put in front of UTF-8 text.
unfoldable pub skip_bom : Text → Text
skip_bom (a ∷ b ∷ c ∷ rest) = if a == 0xEF && b == 0xBB && c == 0xBF then rest else a ∷ b ∷ c ∷ rest
skip_bom line = line

abbrev pub is_name_byte : ℕ → Bool
is_name_byte c = between b'a' c b'z' || between b'A' c b'Z' || between b'0' c b'9' || c == b'_'

-- The name at the start, and the text behind it.
unfoldable pub name_span : Text → Text × Text
name_span [] = ([], [])
name_span (c ∷ cs) =
    let (name, rest) = name_span cs in if is_name_byte c then (c ∷ name, rest) else ([], c ∷ cs)

-- The text behind the colon, if a colon follows the name.
unfoldable pub behind_colon : Text → Option Text
behind_colon [] = none
behind_colon (c ∷ cs) = if c == b':' then some cs else none

-- The label is taken in the first pass; a name that has an address already is an error.
unfoldable pub define_label : Text → Step → Step
unfolding label_find label_add either asm_error
define_label name next pass s =
    if leb max_label_len (length name)
    then asm_error pass s
    else if pass == 1
    then either (label_find name s) (λ a. asm_error)
        (λ pass s. next pass (label_add name s.word_addr s)) pass s
    else next pass s

-- What follows the label, if anything does.
unfoldable pub process_rest : Text → Step
unfolding process_tokens
process_rest [] = ok
process_rest (c ∷ cs) = process_tokens (c ∷ cs)

unfoldable pub process_text : Text → Step
unfolding name_span behind_colon define_label process_rest either skip_ws
process_text p =
    let (name, rest) = name_span p in
    either (behind_colon rest) (λ q. define_label name (process_rest (skip_ws q))) (process_rest p)

unfoldable pub process_line : Text → Step
unfolding skip_bom trim_line skip_ws process_text
process_line raw = process_text (skip_ws (trim_line (skip_bom (take (max_line_len - 1) raw))))
