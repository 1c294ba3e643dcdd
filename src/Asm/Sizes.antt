-- ===== src/Asm/Sizes.antt =====
-- Every line of asm.c has one size, in both passes.
pub mod Registers
pub mod Branches
pub mod Line
use oxalyn.Base.{
  ℕ, zero, suc, ◌+◌, ◌-◌, ◌*◌, ◌/◌, ◌%◌, ◌^◌, ◌≡◌, ◌<◌, ◌≤◌, refl, sym, ap, ◌∙◌, subst, arith, inl,
  inr, Bool, true, false, ◌&&◌, ◌||◌, not, Bool-cases, Option-cases, Option, none, some, List, [],
  ◌∷◌, ◌++◌, ◌==◌, ltb, leb, if◌then◌else◌, length, length-append, length-replicate, replicate, u32,
}
use oxalyn.Base.Int.{ℤ, pos, negsuc, unsigned64}
use oxalyn.Kernel.Search.{same}
use oxalyn.Asm.{encode, fits_bits, movi_bytes, movi_words}
use oxalyn.Asm.Op.{
  op_jmp, op_jz, op_jnz, op_jalr, op_li, op_cmplt, op_add, op_sub, op_xor, op_load, op_store,
  op_call,
}
use oxalyn.Asm.Text.{Text, max_label_len, next_token, parse_reg, parse_number, parse_number64}
use oxalyn.Asm.State.{
  Asm, Step, Outcome, failed, done, max_insns, asm_error, label_find, label_find_alias,
  is_internal_label, require, either, missing_label, label_imm, resolve_label_address, req_reg,
  req_imm_or_label, push, advance, room_for, emit_movi, finish, ok,
}
use oxalyn.Asm.Branches.{
  Handler, asm_bare, asm_one, asm_two, asm_three, asm_imm, asm_reg_imm, asm_call, asm_neg,
  asm_ret_l, asm_not, asm_inc, asm_push, asm_pop, req_token, load_value, movi_label, asm_li,
  asm_movi, jump_label, asm_jmp, asm_branch, asm_target, asm_compare, word_value, asm_word,
  zero_words, zero_count, asm_zero, asm_unknown, minus_one,
}
use oxalyn.Asm.Growth.{
  Ends, Ends-rebase, Grows, Sized, asm_error-Grows, push-Grows, advance-Grows, room_for-Grows,
  emit_movi-Grows, ok-Grows, finish_insn, finish_direct,
}

pub asm_error-Sized : Sized asm_error
asm_error-Sized = (0, asm_error-Grows 0 0)

pub one_word : (insn : ℕ) → Sized (finish 0 insn)
one_word insn = (1, finish_insn insn)

pub require-Sized {ℓ} :
    {A : Type ℓ} (o : Option A) (next : A → Step)
    → ((a : A) → Sized (next a))
    → Sized (require o next)
unfolding require
require-Sized none next h = asm_error-Sized
require-Sized (some a) next h = h a

pub either-Sized {ℓ} :
    {A : Type ℓ} (o : Option A) (next : A → Step) (other : Step)
    → ((a : A) → Sized (next a))
    → Sized other
    → Sized (either o next other)
unfolding either
either-Sized none next other h g = g
either-Sized (some a) next other h g = h a

-- Where the address of a label does not matter for the size.
pub either-Grows {ℓ} :
    {A : Type ℓ} (k n : ℕ) (o : Option A) (next : A → Step) (other : Step)
    → ((a : A) → Grows k n (next a))
    → Grows k n other
    → Grows k n (either o next other)
unfolding either
either-Grows k n none next other h g = g
either-Grows k n (some a) next other h g = h a

missing_label-Grows :
    (k n : ℕ) (t : Text) (next : Step) → Grows k n next → Grows k n (missing_label t next)
unfolding missing_label
missing_label-Grows k n t next h pass s = elim (Bool-cases (pass == 2 && is_internal_label t)) [
  | inl b ↦ rw b (asm_error-Grows k n pass s)
  | inr b ↦ rw b (h pass s)
]

pub resolve-Grows :
    (k n : ℕ) (t : Text) (next : ℕ → Step)
    → ((a : ℕ) → Grows k n (next a))
    → Grows k n (resolve_label_address t next)
unfolding resolve_label_address
resolve-Grows k n t next h pass s =
    either-Grows k n (label_find_alias t s) next (missing_label t (next 0)) h
      (missing_label-Grows k n t (next 0) (h 0)) pass s

pub req_reg-Sized :
    (p : Text) (next : ℕ → Text → Step)
    → ((r : ℕ) (q : Text) → Sized (next r q))
    → Sized (req_reg p next)
unfolding req_reg
req_reg-Sized p next h =
    require-Sized (next_token p max_label_len) _
      λ (t, rest). require-Sized (parse_reg t) _ λ r. h r rest

pub req_token-Sized :
    (p : Text) (next : Text → Step) → ((t : Text) → Sized (next t)) → Sized (req_token p next)
unfolding req_token
req_token-Sized p next h = require-Sized (next_token p max_label_len) _ λ (t, rest). h t

pub req_imm-Sized :
    (is_branch : Bool) (p : Text) (next : ℕ → Step)
    → ((imm : ℕ) → Grows 1 1 (next imm))
    → Sized (req_imm_or_label is_branch p next)
unfolding req_imm_or_label label_imm
req_imm-Sized is_branch p next h = require-Sized (next_token p max_label_len) _ λ (t, rest).
    either-Sized (parse_number t) next _ (λ v. (1, h v))
      (
        1,
        resolve-Grows 1 1 t (label_imm is_branch next) λ a pass s.
            h (if is_branch then u32 (a + 2 ^ 32 - u32 (s.word_addr + 1)) else a) pass s,
      )
