-- ===== src/Asm/Passes.antt =====
-- The two passes of asm.c over one source.
pub mod Labels
use oxalyn.Base.{
  ℕ, ◌+◌, ◌≡◌, ◌≤◌, refl, sym, ap, ◌∙◌, subst, arith, inl, inr, Bool, true, false, ◌&&◌, not,
  Bool-cases, none, some, List, [], ◌∷◌, ◌++◌, ◌==◌, if◌then◌else◌, length, u32,
}
use mathlib.Core.Option
use mathlib.Core.Option.{none-ne-some, some-injective}
use oxalyn.Asm.Text.{Text}
use oxalyn.Asm.State.{Asm, Outcome, failed, done}
use oxalyn.Asm.Line.{process_line}
use oxalyn.Asm.Pass.{state_of, gives_up, run_lines, run_pass, assemble, start}
use oxalyn.Asm.Growth.{Extends, unchanged, Extends-trans, Ends}
use oxalyn.Asm.Sizes.Line.{process_line-Sized}

-- What a line that is not refused has done.
abbrev Moved : ℕ → ℕ → Asm → Asm → Type 0
Moved n pass s t =
    (t.error_count ≡ s.error_count)
    × (u32 t.word_addr ≡ u32 (s.word_addr + n))
    × (pass ≡ 2 → length t.code ≡ length s.code + n)
    × Extends s.labels t.labels

pub errors-le :
    (n pass : ℕ) (s : Asm) (o : Outcome)
    → Ends n n pass s o
    → s.error_count ≤ (state_of o).error_count
errors-le n pass s (failed t) (h, _) = omega arith
errors-le n pass s (done t) (e, _, _, _) = omega arith

pub run_lines_errors :
    (lines : List Text) (pass : ℕ) (s : Asm)
    → s.error_count ≤ (run_lines lines pass s).1.error_count
unfolding run_lines
run_lines_errors [] pass s = omega arith
run_lines_errors (line ∷ lines) pass s =
    let o = process_line line pass s in
    let (n, grows) = process_line-Sized line in
    let here = errors-le n pass s o (grows pass s) in
    elim (Bool-cases (gives_up o)) [
      | inl e ↦ rw e here
      | inr e ↦ rw e (omega (arith, here, run_lines_errors lines pass (state_of o)))
    ]

-- What the loop makes of the outcome of a line.
abbrev go_on : List Text → ℕ → Outcome → Bool × Asm
go_on lines pass o = if gives_up o then (true, state_of o) else run_lines lines pass (state_of o)

go_on-accepted :
    (lines : List Text) (n pass : ℕ) (s : Asm) (o : Outcome)
    → Ends n n pass s o
    → (go_on lines pass o).1.error_count ≡ 0
    → (t : Asm) × Moved n pass s t × (go_on lines pass o ≡ run_lines lines pass t) × (o ≡ done t)
go_on-accepted lines n pass s (done t) h clean = (t, h, refl, refl)
go_on-accepted lines n pass s (failed t) (h, _) clean = elim (Bool-cases (gives_up (failed t))) [
  | inl e ↦
      let stopped =
        subst (λ (b : Bool). (if b then (true, t) else run_lines lines pass t).1.error_count ≡ 0) e
          clean in
      absurd (omega arith)
  | inr e ↦
      let ran =
        subst (λ (b : Bool). (if b then (true, t) else run_lines lines pass t).1.error_count ≡ 0) e
          clean in
      absurd (omega (arith, ran, run_lines_errors lines pass t))
]

-- In a pass that ends without an error, each line is accepted.
pub accepted :
    (line : Text) (lines : List Text) (pass : ℕ) (s : Asm)
    → (run_lines (line ∷ lines) pass s).1.error_count ≡ 0
    → (t : Asm) × Moved (process_line-Sized line).0 pass s t
      × (run_lines (line ∷ lines) pass s ≡ run_lines lines pass t)
      × (process_line line pass s ≡ done t)
unfolding run_lines
accepted line lines pass s clean =
    let (n, grows) = process_line-Sized line in
    go_on-accepted lines n pass s (process_line line pass s) (grows pass s) clean

-- Two runs over the same lines, the first pass and the second, whatever labels they know.
pub runs_agree :
    (lines : List Text) (s t : Asm)
    → u32 s.word_addr ≡ u32 t.word_addr
    → u32 (length t.code) ≡ u32 t.word_addr
    → (run_lines lines 1 s).1.error_count ≡ 0
    → (run_lines lines 2 t).1.error_count ≡ 0
    → (u32 (run_lines lines 1 s).1.word_addr ≡ u32 (length (run_lines lines 2 t).1.code))
unfolding run_lines
runs_agree [] s t e c clean1 clean2 = e ∙ sym c
runs_agree (line ∷ lines) s t e c clean1 clean2 =
    let (s', (_, w1, _, _), r1, _) = accepted line lines 1 s clean1 in
    let (t', (_, w2, c2, _), r2, _) = accepted line lines 2 t clean2 in
    let n = (process_line-Sized line).0 in
    let written = c2 refl in
    rw (r1, r2)
      (runs_agree lines s' t' (omega arith) (omega arith)
        (subst (λ (b : Bool × Asm). b.1.error_count ≡ 0) r1 clean1)
        (subst (λ (b : Bool × Asm). b.1.error_count ≡ 0) r2 clean2))

stop_or_go :
    (b : Bool) (x : Asm) (all part : Bool × Asm)
    → (all.1.error_count ≡ 0 → part.1.error_count ≡ 0)
    → (if b then (true, x) else all).1.error_count ≡ 0
    → (if b then (true, x) else part).1.error_count ≡ 0
stop_or_go true x all part h clean = clean
stop_or_go false x all part h clean = h clean

pub run_lines-append :
    (before after : List Text) (pass : ℕ) (s : Asm)
    → (run_lines (before ++ after) pass s).1.error_count ≡ 0
    → (run_lines before pass s).1.error_count ≡ 0
unfolding run_lines
run_lines-append [] after pass s clean = omega (arith, run_lines_errors after pass s)
run_lines-append (line ∷ before) after pass s clean =
    let o = process_line line pass s in
    stop_or_go (gives_up o) (state_of o) (run_lines (before ++ after) pass (state_of o))
      (run_lines before pass (state_of o)) (run_lines-append before after pass (state_of o)) clean

kept :
    (good : Bool) (x r : Asm) → (if good then some x else none) ≡ some r → (good ≡ true) × (x ≡ r)
kept true x r e = (refl, some-injective x r e)
kept false x r e = absurd (none-ne-some r e)

clean_pass :
    (lines : List Text) (pass : ℕ) (s r : Asm)
    → run_pass lines pass s ≡ some r
    → let end = (run_lines lines pass (record s { word_addr = 0 })).1 in
      (end.error_count ≡ 0) × (end ≡ r)
unfolding run_pass
clean_pass lines pass s r e =
    let (early, end) = run_lines lines pass (record s { word_addr = 0 }) in
    let (good, same) = kept (not early && end.error_count == 0) end r e in (ground arith, same)

-- The state in which the second pass starts.
abbrev pub second : List Text → Asm
second lines = record (run_lines lines 1 start).1 { code = []; word_addr = 0 }

pub both_clean :
    (lines : List Text) (r : Asm)
    → assemble lines ≡ some r
    → ((run_lines lines 1 start).1.error_count ≡ 0)
      × ((run_lines lines 2 (second lines)).1.error_count ≡ 0)
      × ((run_lines lines 2 (second lines)).1 ≡ r)
unfolding assemble
both_clean lines r e =
    let (s, first, last) =
      (Option.bind-eq-some_iff (run_pass lines 1 start)
          (λ x. run_pass lines 2 (record x { code = [] }))).0
        e in
    let (clean1, end1) = clean_pass lines 1 start s first in
    let (clean2, end2) = clean_pass lines 2 (record s { code = [] }) r last in
    let back : record s { code = []; word_addr = 0 } ≡ second lines =
      ap (λ (x : Asm). record x { code = []; word_addr = 0 }) (sym end1) in
    (
      clean1,
      subst (λ (x : Asm). (run_lines lines 2 x).1.error_count ≡ 0) back clean2,
      subst (λ (x : Asm). (run_lines lines 2 x).1 ≡ r) back end2,
    )

-- In a source that assembles, the word address that the first pass has reached after any number of
-- lines, which is what a label on the next line gets, is the number of words that the second pass
-- has written by then (as 32-bit words). After all lines it is the length of the program.
pub assemble_agrees :
    (before after : List Text) (r : Asm)
    → assemble (before ++ after) ≡ some r
    → (u32 (run_lines before 1 start).1.word_addr
        ≡ u32 (length (run_lines before 2 (second (before ++ after))).1.code))
      × (u32 (run_lines (before ++ after) 1 start).1.word_addr ≡ u32 (length r.code))
assemble_agrees before after r e =
    let lines = before ++ after in
    let (clean1, clean2, end) = both_clean lines r e in
    (
      runs_agree before start (second lines) refl refl
          (run_lines-append before after 1 start clean1)
          (run_lines-append before after 2 (second lines) clean2),
      subst (λ (x : Asm). u32 (run_lines lines 1 start).1.word_addr ≡ u32 (length x.code)) end
          (runs_agree lines start (second lines) refl refl clean1 clean2),
    )
