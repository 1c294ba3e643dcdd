-- ===== src/Asm/Elf/Layout.antt =====
-- What the headers of the file of write_elf of asm.c say of the places of its parts.
use oxalyn.Base.{
  ℕ, ◌+◌, ◌*◌, ◌/◌, ◌%◌, ◌^◌, ◌<◌, ◌≡◌, refl, sym, ap, ◌∙◌, subst, arith, List, length, get_or, u32,
}
use oxalyn.Asm.State.{Label}
use oxalyn.Asm.Elf.{
  elf_u16, elf_u32, fields32, fields16, elf_header, program_header, headers, symtab, strtab,
  strtab_sz, text_sz, sym_sz, off_text, off_symtab, off_strtab, off_shstrtab, off_shdrs,
  section_headers, shstrtab_data, write_elf,
}
use oxalyn.Asm.Elf.Places.{PlacedAt, offsets_placed, length-fields32, length-symtab, length-strtab}

-- The 32-bit field, most significant byte first, that stands at a place in some bytes.
abbrev pub field32 : List ℕ → ℕ → ℕ
field32 bytes i =
    get_or bytes i 0 * 2 ^ 24
    + get_or bytes (i + 1) 0 * 2 ^ 16
    + get_or bytes (i + 2) 0 * 2 ^ 8
    + get_or bytes (i + 3) 0

-- Entry `i` of the section headers names the place of a part in the file, with its size: sh_offset
-- is the fifth field of the entry and sh_size the sixth.
abbrev pub IsSection : List ℕ → ℕ → List ℕ → List ℕ → Type 0
IsSection shdrs i part file =
    PlacedAt (field32 shdrs (i * 40 + 16)) part file
    × (field32 shdrs (i * 40 + 20) ≡ u32 (length part))

-- A reader that starts at the ELF header finds everything: e_shoff stands at byte 32 of the file,
-- e_phoff at 28, p_offset and p_filesz at 4 and 16 of the program header.
abbrev pub IsLaidOut : List Label → List ℕ → Type 0
IsLaidOut labels code =
    let file = write_elf labels code in
    let phdr = field32 file 28 in
    (shdrs : List ℕ) × PlacedAt (field32 file 32) shdrs file
    × (length shdrs ≡ 5 * 40)
    × PlacedAt (field32 file (phdr + 4)) (fields32 code) file
    × (field32 file (phdr + 16) ≡ u32 (length (fields32 code)))
    × IsSection shdrs 1 (fields32 code) file
    × IsSection shdrs 2 (symtab labels) file
    × IsSection shdrs 3 (strtab labels) file
    × IsSection shdrs 4 shstrtab_data file

read_back :
    (v : ℕ)
    → v < 2 ^ 32
    → v / 2 ^ 24 % 2 ^ 8 * 2 ^ 24
        + v / 2 ^ 16 % 2 ^ 8 * 2 ^ 16
        + v / 2 ^ 8 % 2 ^ 8 * 2 ^ 8
        + v % 2 ^ 8
      ≡ v
read_back v h = omega arith

e_shoff :
    (labels : List Label) (code : List ℕ)
    → field32 (write_elf labels code) 32 ≡ off_shdrs labels code
unfolding write_elf headers elf_header fields16 fields32 elf_u16 elf_u32 off_shdrs
e_shoff labels code = read_back (off_shdrs labels code) (omega arith)

program_fields :
    (labels : List Label) (code : List ℕ)
    → let file = write_elf labels code in
      (field32 file (field32 file 28 + 4) ≡ off_text)
      × (field32 file (field32 file 28 + 16) ≡ text_sz code)
unfolding write_elf headers elf_header program_header fields16 fields32 elf_u16 elf_u32
program_fields labels code = (refl, read_back (text_sz code) (omega arith))

section_fields :
    (labels : List Label) (code : List ℕ)
    → let shdrs = section_headers labels code in
      (length shdrs ≡ 5 * 40)
      × (field32 shdrs (1 * 40 + 16) ≡ off_text)
      × (field32 shdrs (1 * 40 + 20) ≡ text_sz code)
      × (field32 shdrs (2 * 40 + 16) ≡ off_symtab code)
      × (field32 shdrs (2 * 40 + 20) ≡ sym_sz labels)
      × (field32 shdrs (3 * 40 + 16) ≡ off_strtab labels code)
      × (field32 shdrs (3 * 40 + 20) ≡ strtab_sz labels)
      × (field32 shdrs (4 * 40 + 16) ≡ off_shstrtab labels code)
      × (field32 shdrs (4 * 40 + 20) ≡ u32 (length shstrtab_data))
unfolding section_headers fields32 elf_u32 strtab_sz off_shstrtab
section_fields labels code = (
  refl,
  refl,
  read_back (text_sz code) (omega arith),
  read_back (off_symtab code) (omega arith),
  read_back (sym_sz labels) (omega arith),
  read_back (off_strtab labels code) (omega arith),
  read_back (strtab_sz labels) (omega arith),
  read_back (off_shstrtab labels code) (omega arith),
  refl,
)

PlacedAt-eq :
    {o o' : ℕ} {part file : List ℕ} → o' ≡ o → PlacedAt o part file → PlacedAt o' part file
PlacedAt-eq {part} {file} e placed = subst (λ o. PlacedAt o part file) (sym e) placed

-- The file of write_elf can be read from its own headers: e_shoff names the place of five section
-- headers; p_offset and p_filesz of the program header at e_phoff name the place and the size of
-- the code; and sh_offset and sh_size of the section headers 1 to 4 name the place and the size of
-- the code, the symbols, their names, and the names of the sections (as 32-bit numbers).
pub write_elf-IsLaidOut : (labels : List Label) (code : List ℕ) → IsLaidOut labels code
unfolding strtab_sz
write_elf-IsLaidOut labels code =
    let (text, syms, strs, shstrs, shdrs) = offsets_placed labels code in
    let (p_offset, p_filesz) = program_fields labels code in
    let (len, off1, size1, off2, size2, off3, size3, off4, size4) = section_fields labels code in
    let text_size : text_sz code ≡ u32 (length (fields32 code)) =
      ap (λ (n : ℕ). u32 n) (sym (length-fields32 code)) in
    let syms_size : sym_sz labels ≡ u32 (length (symtab labels)) =
      ap (λ (n : ℕ). u32 n) (sym (length-symtab labels)) in
    let strs_size : strtab_sz labels ≡ u32 (length (strtab labels)) =
      ap (λ (n : ℕ). u32 n) (sym (length-strtab labels)) in
    (
      section_headers labels code,
      PlacedAt-eq (e_shoff labels code) shdrs,
      len,
      PlacedAt-eq p_offset text,
      p_filesz ∙ text_size,
      (PlacedAt-eq off1 text, size1 ∙ text_size),
      (PlacedAt-eq off2 syms, size2 ∙ syms_size),
      (PlacedAt-eq off3 strs, size3 ∙ strs_size),
      (PlacedAt-eq off4 shstrs, size4),
    )
