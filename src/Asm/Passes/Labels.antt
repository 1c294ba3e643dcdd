-- ===== src/Asm/Passes/Labels.antt =====
-- Where the labels of asm.c point.
use oxalyn.Base.{
  ℕ, ◌≡◌, ◌<◌, refl, ap, ◌∙◌, subst, arith, inl, inr, Bool, true, false, ◌||◌, Bool-cases, none,
  some, List, [], ◌∷◌, ◌++◌, ltb, leb, if◌then◌else◌, length, take, u32,
}
use mathlib.Core.List.{append_assoc}
use mathlib.Core.Bool.{true≢false}
use oxalyn.Kernel.Search.{same}
use oxalyn.Kernel.Search.Laws.{same_self}
use oxalyn.Asm.Text.{Text, max_label_len, skip_ws, trim_line}
use oxalyn.Asm.State.{
  Label, Asm, Step, Outcome, failed, done, asm_error, max_labels, as_address, find_label, has_label,
  label_find, label_add, either,
}
use oxalyn.Asm.Line.{
  skip_bom, name_span, behind_colon, define_label, process_rest, process_text, process_line,
}
use oxalyn.Asm.Pass.{state_of, gives_up, run_lines, assemble, start}
use oxalyn.Asm.Growth.{Extends, unchanged, Extends-trans, Ends, Grows}
use oxalyn.Asm.Sizes.Line.{process_line-Sized, process_rest-Sized}
use oxalyn.Asm.Passes.{accepted, both_clean, second, runs_agree, run_lines-append}

Ends-Extends :
    (k n pass : ℕ) (s : Asm) (o : Outcome)
    → Ends k n pass s o
    → Extends s.labels (state_of o).labels
Ends-Extends k n pass s (failed t) h = h.1
Ends-Extends k n pass s (done t) (a, b, c, d) = d

run_lines-Extends :
    (lines : List Text) (pass : ℕ) (s : Asm) → Extends s.labels (run_lines lines pass s).1.labels
unfolding run_lines
run_lines-Extends [] pass s = unchanged s.labels
run_lines-Extends (line ∷ lines) pass s =
    let o = process_line line pass s in
    let (n, grows) = process_line-Sized line in
    let here = Ends-Extends n n pass s o (grows pass s) in
    elim (Bool-cases (gives_up o)) [
      | inl e ↦ rw e here
      | inr e ↦ rw e (
          Extends-trans s.labels (state_of o).labels (run_lines lines pass (state_of o)).1.labels
            here (run_lines-Extends lines pass (state_of o)))
    ]

-- A pass that ends without an error goes through its lines one part after the other.
split_step :
    (o : Outcome) (all part : Bool × Asm) (f : Asm → Bool × Asm)
    → (if gives_up o then (true, state_of o) else all).1.error_count ≡ 0
    → (all.1.error_count ≡ 0 → all ≡ f part.1)
    → (if gives_up o then (true, state_of o) else all)
      ≡ f (if gives_up o then (true, state_of o) else part).1
split_step (done t) all part f clean h = h clean
split_step (failed t) all part f clean h = elim (Bool-cases (ltb 10 t.error_count)) [
  | inl e ↦
      let stopped =
        subst (λ (b : Bool). (if b then (true, t) else all).1.error_count ≡ 0) e clean in
      absurd (ground arith)
  | inr e ↦
      let ran = subst (λ (b : Bool). (if b then (true, t) else all).1.error_count ≡ 0) e clean in
      rw e (h ran)
]

run_lines_split :
    (before rest : List Text) (pass : ℕ) (s : Asm)
    → (run_lines (before ++ rest) pass s).1.error_count ≡ 0
    → run_lines (before ++ rest) pass s ≡ run_lines rest pass (run_lines before pass s).1
unfolding run_lines
run_lines_split [] rest pass s clean = refl
run_lines_split (line ∷ before) rest pass s clean =
    let o = process_line line pass s in
    split_step o (run_lines (before ++ rest) pass (state_of o)) (run_lines before pass (state_of o))
      (run_lines rest pass) clean (run_lines_split before rest pass (state_of o))

abbrev label_at : Text → Asm → Label
label_at name s = record { name = name; word_addr = s.word_addr }

-- A line that is accepted has added the label.
abbrev Adds : Text → Asm → Outcome → Type 0
Adds name s (failed t) = Unit
Adds name s (done t) = Extends (s.labels ++ label_at name s ∷ []) t.labels

neither : (a b : Bool) → (a || b) ≡ false → (a ≡ false) × (b ≡ false)
neither true b h = (h, absurd (true≢false h))
neither false b h = (refl, h)

find_label-none :
    (ls : List Label) (name : Text) → has_label ls name ≡ false → find_label ls name ≡ none
unfolding find_label has_label
find_label-none [] name h = refl
find_label-none (l ∷ ls) name h =
    let (first, others) = neither (same l.name name) (has_label ls name) h in
    rw first (find_label-none ls name others)

find_label-added :
    (ls xs : List Label) (name : Text) (a : ℕ)
    → has_label ls name ≡ false
    → find_label ((ls ++ record { name = name; word_addr = a } ∷ []) ++ xs) name ≡ as_address a
unfolding find_label has_label
find_label-added [] xs name a h = rw (same_self name) refl
find_label-added (l ∷ ls) xs name a h =
    let (first, others) = neither (same l.name name) (has_label ls name) h in
    rw first (find_label-added ls xs name a others)

Ends-Adds :
    (k n : ℕ) (name : Text) (s t : Asm) (o : Outcome)
    → t.labels ≡ s.labels ++ label_at name s ∷ []
    → Ends k n 1 t o
    → Adds name s o
Ends-Adds k n name s t (failed x) e h = tt
Ends-Adds k n name s t (done x) e (_, _, _, more) =
    subst (λ (l : List Label). Extends l x.labels) e more

define_label-Adds :
    (k n : ℕ) (name : Text) (next : Step) (s : Asm)
    → Grows k n next
    → has_label s.labels name ≡ false
    → length s.labels < max_labels
    → Adds name s (define_label name next 1 s)
unfolding define_label label_find label_add either asm_error
define_label-Adds k n name next s h new room =
    let absent : find_label s.labels name ≡ none = find_label-none s.labels name new in
    let fits : (leb max_labels (length s.labels) || has_label s.labels name) ≡ false =
      ground arith in
    let t : Asm = record s { labels = s.labels ++ label_at name s ∷ [] } in
    elim (Bool-cases (leb max_label_len (length name))) [
      | inl e ↦ rw e tt
      | inr e ↦ rw (e, absent, fits) (Ends-Adds k n name s t (next 1 t) refl (h 1 t))
    ]

-- The name and the text of a line that starts with a label.
abbrev pub Defines : Text → Text → Text → Type 0
Defines line name rest =
    let (start_name, behind) = name_span (skip_ws (trim_line (skip_bom (take 255 line)))) in
    (start_name ≡ name) × (behind_colon behind ≡ some rest)

process_line-Adds :
    (line name rest : Text) (s : Asm)
    → Defines line name rest
    → has_label s.labels name ≡ false
    → length s.labels < max_labels
    → Adds name s (process_line line 1 s)
unfolding process_line process_text either
process_line-Adds line name rest s (named, colon) new room =
    let (n, grows) = process_rest-Sized (skip_ws rest) in
    rw (colon, named) (define_label-Adds n n name (process_rest (skip_ws rest)) s grows new room)

-- A label that a source defines once, in a source that assembles and while the table has room, is
-- found in the second pass at an address that is the number of words the second pass has written
-- when it comes to the label's line (as 32-bit words; an address of 2 ^ 31 or more counts as
-- missing).
pub label_points :
    (before after : List Text) (line name rest : Text) (r : Asm)
    → assemble (before ++ line ∷ after) ≡ some r
    → Defines line name rest
    → has_label (run_lines before 1 start).1.labels name ≡ false
    → length (run_lines before 1 start).1.labels < max_labels
    → let all = before ++ line ∷ after in
      (a : ℕ) × (label_find name (second all) ≡ as_address a)
      × (u32 a ≡ u32 (length (run_lines before 2 (second all)).1.code))
unfolding label_find
label_points before after line name rest r e defines new room =
    let all = before ++ line ∷ after in
    let (clean1, clean2, end) = both_clean all r e in
    let s = (run_lines before 1 start).1 in
    let split = run_lines_split before (line ∷ after) 1 start clean1 in
    let clean = subst (λ (b : Bool × Asm). b.1.error_count ≡ 0) split clean1 in
    let (t, moved, ran, is_done) = accepted line after 1 s clean in
    let (xs, added) =
      subst (λ (o : Outcome). Adds name s o) is_done
        (process_line-Adds line name rest s defines new room) in
    let (ys, more) = run_lines-Extends after 1 t in
    let table : (run_lines all 1 start).1.labels
        ≡ (s.labels ++ label_at name s ∷ []) ++ (xs ++ ys) =
      ap (λ (b : Bool × Asm). b.1.labels) (split ∙ ran)
      ∙ more
      ∙ ap (λ (l : List Label). l ++ ys) added
      ∙ append_assoc (s.labels ++ label_at name s ∷ []) xs ys in
    (
      s.word_addr,
      ap (λ (l : List Label). find_label l name) table
          ∙ find_label-added s.labels (xs ++ ys) name s.word_addr new,
      runs_agree before start (second all) refl refl
          (run_lines-append before (line ∷ after) 1 start clean1)
          (run_lines-append before (line ∷ after) 2 (second all) clean2),
    )
