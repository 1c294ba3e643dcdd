-- ===== src/Asm/Pass.antt =====
-- run_pass, write_bin and the two passes of main in asm.c. The source is the list of the lines that
-- fgets reads; the result the bytes of the .bin file.
use oxalyn.Base.{
  ℕ, ◌/◌, ◌%◌, ◌^◌, Bool, true, false, ◌&&◌, Option, none, some, List, [], ◌∷◌, ◌==◌, ltb,
  if◌then◌else◌, not,
}
use mathlib.Core.Option
use oxalyn.Asm.Text.{Text}
use oxalyn.Asm.State.{Asm, Outcome, failed, done}
use oxalyn.Asm.Line.{process_line}

abbrev pub state_of : Outcome → Asm
state_of (failed s) = s
state_of (done s) = s

-- More than ten errors end the pass.
abbrev pub gives_up : Outcome → Bool
gives_up (failed s) = ltb 10 s.error_count
gives_up (done s) = false

-- The loop over the lines, with whether it was left early.
unfoldable pub run_lines : List Text → ℕ → Asm → Bool × Asm
unfolding process_line
run_lines [] pass s = (false, s)
run_lines (line ∷ lines) pass s =
    let o = process_line line pass s in
    let rest = run_lines lines pass (state_of o) in if gives_up o then (true, state_of o) else rest

unfoldable pub run_pass : List Text → ℕ → Asm → Option Asm
unfolding run_lines
run_pass lines pass s =
    let (early, end) = run_lines lines pass (record s { word_addr = 0 }) in
    if not early && end.error_count == 0 then some end else none

abbrev pub start : Asm
start = record { labels = []; code = []; error_count = 0; word_addr = 0 }

-- Both passes; none is the end of main at `fail`.
unfoldable pub assemble : List Text → Option Asm
unfolding run_pass
assemble lines = Option.bind (run_pass lines 1 start) λ s. run_pass lines 2 (record s { code = [] })

unfoldable pub write_bin : List ℕ → List ℕ
write_bin [] = []
write_bin (insn ∷ rest) =
    insn / 2 ^ 24 % 2 ^ 8
    ∷ insn / 2 ^ 16 % 2 ^ 8
    ∷ insn / 2 ^ 8 % 2 ^ 8
    ∷ insn % 2 ^ 8
    ∷ write_bin rest
