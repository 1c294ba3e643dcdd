-- ===== src/Asm/Elf/Places.antt =====
-- The parts of the file of write_elf of asm.c, at the offsets that it computes.
use oxalyn.Base.{
  ℕ, ◌+◌, ◌*◌, ◌≡◌, refl, sym, ap, ◌∙◌, arith, List, [], ◌∷◌, ◌++◌, length, length-append, u32,
}
use mathlib.Core.List.{append_assoc, append-nil}
use oxalyn.Asm.State.{Label}
use oxalyn.Asm.Elf.{
  elf_u16, elf_u32, fields32, fields16, names, names_size, elf_header, program_header, headers,
  symbols, symtab, strtab, strtab_sz, off_text, off_symtab, off_strtab, off_shstrtab, off_shdrs,
  section_headers, shstrtab_data, write_elf,
}

pub length-fields32 : (vs : List ℕ) → length (fields32 vs) ≡ length vs * 4
unfolding fields32 elf_u32
length-fields32 [] = refl
length-fields32 (v ∷ vs) = omega (arith, length-fields32 vs)

length-names : (ls : List Label) → length (names ls) ≡ names_size ls
unfolding names names_size
length-names [] = refl
length-names (l ∷ ls) = omega (arith, length-append l.name (0 ∷ names ls), length-names ls)

length-symbols : (ls : List Label) (off : ℕ) → length (symbols off ls) ≡ length ls * 16
unfolding symbols fields32 elf_u32 elf_u16
length-symbols [] off = refl
length-symbols (l ∷ ls) off = omega (arith, length-symbols ls (u32 (off + length l.name + 1)))

length-headers : (ls : List Label) (code : List ℕ) → length (headers ls code) ≡ 84
unfolding headers elf_header program_header fields32 fields16 elf_u32 elf_u16
length-headers ls code = refl

pub length-symtab : (ls : List Label) → length (symtab ls) ≡ (1 + length ls) * 16
unfolding symtab
length-symtab ls = omega (arith, length-symbols ls 1)

pub length-strtab : (ls : List Label) → length (strtab ls) ≡ 1 + names_size ls
unfolding strtab
length-strtab ls = omega (arith, length-names ls)

-- Where a part stands in a file.
abbrev pub PlacedAt : ℕ → List ℕ → List ℕ → Type 0
PlacedAt offset part file =
    (before : List ℕ) × (after : List ℕ) × (file ≡ before ++ part ++ after)
    × (u32 (length before) ≡ offset)

-- The places of the parts, as write_elf computes the offsets.
pub offsets_placed :
    (labels : List Label) (code : List ℕ)
    → let file = write_elf labels code in
      PlacedAt off_text (fields32 code) file
      × PlacedAt (off_symtab code) (symtab labels) file
      × PlacedAt (off_strtab labels code) (strtab labels) file
      × PlacedAt (off_shstrtab labels code) shstrtab_data file
      × PlacedAt (off_shdrs labels code) (section_headers labels code) file
unfolding write_elf off_shdrs off_shstrtab strtab_sz
offsets_placed labels code =
    let h = headers labels code in
    let t = fields32 code in
    let y = symtab labels in
    let r = strtab labels in
    let x = section_headers labels code in
    let lh = length-headers labels code in
    let lt = length-fields32 code in
    let ly = length-symtab labels in
    let lr = length-strtab labels in
    let a3 = append_assoc (h ++ t ++ y ++ r) shstrtab_data x in
    let a2 = a3 ∙ append_assoc (h ++ t ++ y) r (shstrtab_data ++ x) in
    let a1 = a2 ∙ append_assoc (h ++ t) y (r ++ (shstrtab_data ++ x)) in
    let n1 = length-append h t in
    let n2 = length-append (h ++ t) y in
    let n3 = length-append (h ++ t ++ y) r in
    let n4 = length-append (h ++ t ++ y ++ r) shstrtab_data in
    (
      (h, y ++ (r ++ (shstrtab_data ++ x)), a1, ap (λ (n : ℕ). u32 n) lh),
      (h ++ t, r ++ (shstrtab_data ++ x), a2, omega (arith, lh, lt, n1)),
      (h ++ t ++ y, shstrtab_data ++ x, a3, omega (arith, lh, lt, ly, n1, n2)),
      (h ++ t ++ y ++ r, x, refl, omega (arith, lh, lt, ly, lr, n1, n2, n3)),
      (
        h ++ t ++ y ++ r ++ shstrtab_data,
        [],
        sym (append-nil (write_elf labels code)),
        omega (arith, lh, lt, ly, lr, n1, n2, n3, n4),
      ),
    )
