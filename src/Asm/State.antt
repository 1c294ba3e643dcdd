-- ===== src/Asm/State.antt =====
-- The static variables of asm.c, the labels, and what the branches of process_line share. A step
-- is the rest of a branch: it is given the pass, and ends the line well or with an error. What is
-- printed for people is left out.
use oxalyn.Base.{
  ℕ, ◌+◌, ◌-◌, ◌^◌, Bool, true, false, not, ◌&&◌, ◌||◌, Option, none, some, List, [], ◌∷◌, ◌++◌,
  ◌==◌, ltb, leb, if◌then◌else◌, length, u32,
}
use oxalyn.Base.Int.{ℤ}
use oxalyn.Kernel.Search.{same}
use oxalyn.Asm.{emit_movi_words}
use oxalyn.Asm.Text.{Text, max_label_len, between, next_token, parse_reg, parse_number}

abbrev pub max_labels : ℕ
max_labels = 8192

abbrev pub max_insns : ℕ
max_insns = 262144

pub record Label : Type 0 where
  pub name : Text
  pub word_addr : ℕ

-- `insn_buf[0 .. insn_count)` is the list `code`, and `*word_addr` of a pass the field of that
-- name.
pub record Asm : Type 0 where
  pub labels : List Label
  pub code : List ℕ
  pub error_count : ℕ
  pub word_addr : ℕ

-- What process_line returns, 0 or 1, with what it leaves.
pub data Outcome : Type 0 where
  failed : Asm → Outcome
  done : Asm → Outcome

abbrev pub Step : Type 0
Step = ℕ → Asm → Outcome

-- `asm_error(...); return 0;`
unfoldable pub asm_error : Step
asm_error pass s = failed (record s { error_count = s.error_count + 1 })

-- A word address that is negative as an `int32_t` counts as missing with every caller.
abbrev pub as_address : ℕ → Option ℕ
as_address a = if ltb a (2 ^ 31) then some a else none

unfoldable pub find_label : List Label → Text → Option ℕ
find_label [] name = none
find_label (l ∷ ls) name =
    let rest = find_label ls name in if same l.name name then as_address l.word_addr else rest

unfoldable pub label_find : Text → Asm → Option ℕ
unfolding find_label
label_find name s = find_label s.labels name

unfoldable pub has_label : List Label → Text → Bool
has_label [] name = false
has_label (l ∷ ls) name = let rest = has_label ls name in same l.name name || rest

-- A full table, or a name that it has, leaves it alone.
unfoldable pub label_add : Text → ℕ → Asm → Asm
unfolding has_label
label_add name addr s =
    if leb max_labels (length s.labels) || has_label s.labels name
    then s
    else record s { labels = s.labels ++ record { name = name; word_addr = addr } ∷ [] }

-- The name that a call of one of the kernel's macros stands for.
unfoldable pub alias_of : Text → Option Text
alias_of name =
    if same name (b'M' ∷ b'M' ∷ b'I' ∷ b'O' ∷ b'_' ∷ b'R' ∷ b'E' ∷ b'A' ∷ b'D' ∷ [])
    then some (b'm' ∷ b'm' ∷ b'i' ∷ b'o' ∷ b'_' ∷ b'r' ∷ b'e' ∷ b'a' ∷ b'd' ∷ [])
    else if same name (b'M' ∷ b'M' ∷ b'I' ∷ b'O' ∷ b'_' ∷ b'W' ∷ b'R' ∷ b'I' ∷ b'T' ∷ b'E' ∷ [])
    then some (b'm' ∷ b'm' ∷ b'i' ∷ b'o' ∷ b'_' ∷ b'w' ∷ b'r' ∷ b'i' ∷ b't' ∷ b'e' ∷ [])
    else if same name (b'p' ∷ b'r' ∷ b'i' ∷ b'n' ∷ b't' ∷ b'f' ∷ [])
        || same name (b'K' ∷ b'P' ∷ b'R' ∷ b'I' ∷ b'N' ∷ b'T' ∷ [])
    then some (b'k' ∷ b'p' ∷ b'r' ∷ b'i' ∷ b'n' ∷ b't' ∷ b'f' ∷ [])
    else if same name (b'K' ∷ b'G' ∷ b'E' ∷ b'T' ∷ b'C' ∷ b'H' ∷ b'A' ∷ b'R' ∷ [])
    then some
        (b'u' ∷ b'a' ∷ b'r' ∷ b't' ∷ b'_' ∷ b'g' ∷ b'e' ∷ b't' ∷ b'c' ∷ b'h' ∷ b'a' ∷ b'r' ∷ [])
    else if same name (b'K' ∷ b'P' ∷ b'U' ∷ b'T' ∷ b'C' ∷ b'H' ∷ b'A' ∷ b'R' ∷ [])
    then some
        (b'u' ∷ b'a' ∷ b'r' ∷ b't' ∷ b'_' ∷ b'p' ∷ b'u' ∷ b't' ∷ b'c' ∷ b'h' ∷ b'a' ∷ b'r' ∷ [])
    else none

-- The alias of MEMORY_BARRIER is the name itself, which was not found before.
unfoldable pub label_find_alias : Text → Asm → Option ℕ
unfolding label_find alias_of
label_find_alias name s = elim (label_find name s) [
  | some a ↦ some a
  | none ↦ elim (alias_of name) [ some other ↦ label_find other s | none ↦ none ]
]

abbrev pub all_digits : Text → Bool
all_digits [] = true
all_digits (c ∷ cs) = between b'0' c b'9' && all_digits cs

unfoldable pub is_internal_label : Text → Bool
is_internal_label (u ∷ l ∷ d ∷ ds) = u == b'_' && l == b'L' && all_digits (d ∷ ds)
is_internal_label _ = false

-- `if (!found) { asm_error(...); return 0; }`
unfoldable pub require {ℓ} : {A : Type ℓ} → Option A → (A → Step) → Step
unfolding asm_error
require none next = asm_error
require (some a) next = next a

-- `if (found) ... else ...`
unfoldable pub either {ℓ} : {A : Type ℓ} → Option A → (A → Step) → Step → Step
either none next other = other
either (some a) next other = next a

-- A missing label is 0 in the first pass; in the second it is 0 (with a warning) or an error.
unfoldable pub missing_label : Text → Step → Step
unfolding is_internal_label asm_error
missing_label token next pass s =
    if pass == 2 && is_internal_label token then asm_error pass s else next pass s

unfoldable pub resolve_label_address : Text → (ℕ → Step) → Step
unfolding label_find_alias either missing_label
resolve_label_address token next pass s =
    either (label_find_alias token s) next (missing_label token (next 0)) pass s

-- REQ_REG
unfoldable pub req_reg : Text → (ℕ → Text → Step) → Step
unfolding next_token parse_reg require
req_reg p next =
    require (next_token p max_label_len) λ (t, rest). require (parse_reg t) λ r. next r rest

-- An immediate from the address of a label.
unfoldable pub label_imm : Bool → (ℕ → Step) → ℕ → Step
label_imm is_branch next a pass s =
    next (if is_branch then u32 (a + 2 ^ 32 - u32 (s.word_addr + 1)) else a) pass s

-- REQ_IMM_OR_LABEL
unfoldable pub req_imm_or_label : Bool → Text → (ℕ → Step) → Step
unfolding next_token parse_number require either resolve_label_address label_imm
req_imm_or_label is_branch p next =
    require (next_token p max_label_len)
      λ (t, rest). either (parse_number t) next (resolve_label_address t (label_imm is_branch next))

-- `if (pass == 2) insn_buf[insn_count++] = insn;`
unfoldable pub push : ℕ → Step → Step
push insn next pass s = next pass (if pass == 2 then record s { code = s.code ++ insn ∷ [] } else s)

-- `*word_addr += n;`
unfoldable pub advance : ℕ → Step → Step
advance n next pass s = next pass (record s { word_addr = u32 (s.word_addr + n) })

-- `if (pass == 2 && insn_count + n > MAX_INSNS) { asm_error(...); return 0; }`
unfoldable pub room_for : ℕ → Step → Step
unfolding asm_error
room_for n next pass s =
    if pass == 2 && ltb max_insns (length s.code + n) then asm_error pass s else next pass s

-- emit_movi_words for both passes.
unfoldable pub emit_movi : ℕ → ℤ → ℕ → Step → Step
unfolding asm_error emit_movi_words
emit_movi rd value bytes next pass s =
    if bytes == 0 || ltb 8 bytes
    then asm_error pass s
    else if not (pass == 2)
    then next pass s
    else elim (emit_movi_words rd value bytes (max_insns - length s.code)) [
      | none ↦ asm_error pass s
      | some ws ↦ next pass (record s { code = s.code ++ ws })
    ]

abbrev pub ok : Step
ok pass s = done s

-- The end of a branch: its instruction, unless it has written `direct_words` words itself.
unfoldable pub finish : ℕ → ℕ → Step
unfolding room_for push advance
finish direct_words insn =
    if direct_words == 0 then room_for 1 (push insn (advance 1 ok)) else advance direct_words ok
