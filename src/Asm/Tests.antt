-- ===== src/Asm/Tests.antt =====
-- Runs of the assembler of asm.c, and the witnesses.
use oxalyn.Base.{ℕ, ◌%◌, ◌≡◌, refl, arith, Option, none, some, List, [], ◌∷◌, ◌++◌, length, u32}
use oxalyn.Base.Int.{negsuc}
use oxalyn.Asm.{encode, emit_movi_words, movi_bytes, movi_words, movi_temp}
use oxalyn.Asm.Op.{op_add}
use mathlib.Core.Option
use oxalyn.Kernel.Search.{same}
use oxalyn.Asm.Branches.{asm_movi, asm_inc, asm_compare, asm_bare}
use oxalyn.Asm.Text.{Text}
use oxalyn.Asm.State.{Asm, label_find, as_address}
use oxalyn.Asm.Pass.{run_lines, assemble, start}
use oxalyn.Asm.Encoding.{decode-encode}
use oxalyn.Asm.Constant.{RunLoads}
use oxalyn.Asm.Movi.{loaded, movi-run}
use oxalyn.Asm.Passes.Labels.{label_points}
use oxalyn.Asm.Elf.Layout.{IsLaidOut, write_elf-IsLaidOut}
use oxalyn.Asm.Passes.{second, assemble_agrees}
use oxalyn.Sim.Exec.Insn.{decode, sign_extend11}
use oxalyn.Sim.Cold.{cold}

-- A loop that counts R2 down.
abbrev head : List Text
head =
    (b's' ∷ b't' ∷ b'a' ∷ b'r' ∷ b't' ∷ b':' ∷ b' ' ∷ b'M' ∷ b'O' ∷ b'V' ∷ b'I' ∷ b' ' ∷ b'R' ∷ b'2'
      ∷ b',' ∷ b' ' ∷ b'3' ∷ [])
    ∷ []

abbrev next_line : Text
next_line = (b'n' ∷ b'e' ∷ b'x' ∷ b't' ∷ b':' ∷ b' ' ∷ b'D' ∷ b'E' ∷ b'C' ∷ b' ' ∷ b'R' ∷ b'2' ∷ [])

abbrev rest : List Text
rest =
    (b' ' ∷ b' ' ∷ b'B' ∷ b'N' ∷ b'E' ∷ b' ' ∷ b'R' ∷ b'2' ∷ b',' ∷ b' ' ∷ b'R' ∷ b'0' ∷ b',' ∷ b' '
      ∷ b'n' ∷ b'e' ∷ b'x' ∷ b't' ∷ b' ' ∷ b';' ∷ b' ' ∷ b'a' ∷ b'g' ∷ b'a' ∷ b'i' ∷ b'n' ∷ [])
    ∷ (b'H' ∷ b'A' ∷ b'L' ∷ b'T' ∷ [])
    ∷ []

abbrev tail : List Text
tail = next_line ∷ rest

program : Option Asm → Asm
program none = start
program (some s) = s

code_of : Option Asm → List ℕ
code_of none = []
code_of (some s) = s.code

-- MOVI 3 is one word, DEC two, the branch seven, HALT one.
assemble_loop : length (code_of (assemble (head ++ tail))) ≡ 11
unfolding assemble code_of Option.bind same asm_movi asm_inc asm_compare asm_bare
assemble_loop = refl

assemble_agrees_example :
    (u32 (run_lines head 1 start).1.word_addr
      ≡ u32 (length (run_lines head 2 (second (head ++ tail))).1.code))
    × (u32 (run_lines (head ++ tail) 1 start).1.word_addr
        ≡ u32 (length (program (assemble (head ++ tail))).code))
unfolding assemble program Option.bind same asm_movi asm_inc asm_compare asm_bare
assemble_agrees_example = assemble_agrees head tail (program (assemble (head ++ tail))) refl

label_points_example :
    (a : ℕ) × (label_find (b'n' ∷ b'e' ∷ b'x' ∷ b't' ∷ []) (second (head ++ next_line ∷ rest))
      ≡ as_address a)
    × (u32 a ≡ u32 (length (run_lines head 2 (second (head ++ next_line ∷ rest))).1.code))
unfolding assemble program run_lines Option.bind same asm_movi asm_inc asm_compare asm_bare
label_points_example =
    label_points head rest next_line (b'n' ∷ b'e' ∷ b'x' ∷ b't' ∷ [])
      (b' ' ∷ b'D' ∷ b'E' ∷ b'C' ∷ b' ' ∷ b'R' ∷ b'2' ∷ [])
      (program (assemble (head ++ next_line ∷ rest))) refl (refl, refl) refl (omega arith)

decode-encode_example :
    decode (encode op_add 3 1 2 0)
    ≡ record { opcode = op_add; fd = 3; fa = 1; fb = 2; imm = sign_extend11 (0 % 2048) }
decode-encode_example =
    decode-encode op_add 3 1 2 0 (omega arith) (omega arith) (omega arith) (omega arith)

-- -1 is loaded as 255.
movi-run_example :
    (ws : List ℕ) × (emit_movi_words 1 (negsuc 0) (movi_bytes (negsuc 0)) 9 ≡ some ws)
    × RunLoads 1 (movi_temp 1) (loaded (negsuc 0) (movi_bytes (negsuc 0))) cold ws
unfolding movi_words movi_bytes
movi-run_example =
    movi-run 1 (negsuc 0) 9 cold (omega arith) (omega arith) (omega arith) (omega arith)

write_elf-IsLaidOut_example :
    IsLaidOut (record { name = b'a' ∷ b'b' ∷ []; word_addr = 1 } ∷ []) (7 ∷ 9 ∷ [])
write_elf-IsLaidOut_example =
    write_elf-IsLaidOut (record { name = b'a' ∷ b'b' ∷ []; word_addr = 1 } ∷ []) (7 ∷ 9 ∷ [])
