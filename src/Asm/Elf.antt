-- ===== src/Asm/Elf.antt =====
-- write_elf of asm.c: the ELF32 file with the program and its labels, part by part in the order of the
-- file.
pub mod Places
pub mod Layout
use oxalyn.Base.{ℕ, ◌+◌, ◌*◌, ◌/◌, ◌%◌, ◌^◌, List, [], ◌∷◌, ◌++◌, length, replicate, u32}
use oxalyn.Asm.State.{Label}

unfoldable pub elf_u16 : ℕ → List ℕ
elf_u16 v = v / 2 ^ 8 % 2 ^ 8 ∷ v % 2 ^ 8 ∷ []

unfoldable pub elf_u32 : ℕ → List ℕ
elf_u32 v = v / 2 ^ 24 % 2 ^ 8 ∷ v / 2 ^ 16 % 2 ^ 8 ∷ v / 2 ^ 8 % 2 ^ 8 ∷ v % 2 ^ 8 ∷ []

-- One 32-bit field after the other.
unfoldable pub fields32 : List ℕ → List ℕ
unfolding elf_u32
fields32 [] = []
fields32 (v ∷ vs) = elf_u32 v ++ fields32 vs

unfoldable pub fields16 : List ℕ → List ℕ
unfolding elf_u16
fields16 [] = []
fields16 (v ∷ vs) = elf_u16 v ++ fields16 vs

abbrev pub shstrtab_data : List ℕ
shstrtab_data =
    0 ∷ b'.' ∷ b't' ∷ b'e' ∷ b'x' ∷ b't' ∷ 0 ∷ b'.' ∷ b's' ∷ b'y' ∷ b'm' ∷ b't' ∷ b'a' ∷ b'b' ∷ 0
    ∷ b'.' ∷ b's' ∷ b't' ∷ b'r' ∷ b't' ∷ b'a' ∷ b'b' ∷ 0 ∷ b'.' ∷ b's' ∷ b'h' ∷ b's' ∷ b't' ∷ b'r'
    ∷ b't' ∷ b'a' ∷ b'b' ∷ 0 ∷ []

-- The bytes of the names, each with its terminator.
unfoldable pub names : List Label → List ℕ
names [] = []
names (l ∷ ls) = l.name ++ 0 ∷ names ls

unfoldable pub names_size : List Label → ℕ
names_size [] = 0
names_size (l ∷ ls) = length l.name + 1 + names_size ls

-- The sizes and the offsets of the parts, as `uint32_t`.
abbrev pub text_sz : List ℕ → ℕ
text_sz code = u32 (length code * 4)

abbrev pub sym_sz : List Label → ℕ
sym_sz labels = u32 ((1 + length labels) * 16)

unfoldable pub strtab_sz : List Label → ℕ
unfolding names_size
strtab_sz labels = u32 (1 + names_size labels)

abbrev pub off_text : ℕ
off_text = 84

abbrev pub off_symtab : List ℕ → ℕ
off_symtab code = u32 (off_text + text_sz code)

abbrev pub off_strtab : List Label → List ℕ → ℕ
off_strtab labels code = u32 (off_symtab code + sym_sz labels)

unfoldable pub off_shstrtab : List Label → List ℕ → ℕ
unfolding strtab_sz
off_shstrtab labels code = u32 (off_strtab labels code + strtab_sz labels)

unfoldable pub off_shdrs : List Label → List ℕ → ℕ
unfolding off_shstrtab
off_shdrs labels code = u32 (off_shstrtab labels code + 33)

unfoldable pub elf_header : ℕ → List ℕ
unfolding fields16 fields32
elf_header shdrs =
    (0x7F ∷ b'E' ∷ b'L' ∷ b'F' ∷ 1 ∷ 2 ∷ 1 ∷ 0 ∷ [])
    ++ replicate 8 0
    ++ fields16 (2 ∷ 0 ∷ [])
    ++ fields32 (1 ∷ 0 ∷ 52 ∷ shdrs ∷ 0 ∷ [])
    ++ fields16 (52 ∷ 32 ∷ 1 ∷ 40 ∷ 5 ∷ 4 ∷ [])

unfoldable pub program_header : ℕ → List ℕ
unfolding fields32
program_header size = fields32 (1 ∷ off_text ∷ 0 ∷ 0 ∷ size ∷ size ∷ 5 ∷ 4 ∷ [])

-- The symbols of the labels, whose names stand from `strtab_off` on.
unfoldable pub symbols : ℕ → List Label → List ℕ
unfolding fields32 elf_u16
symbols strtab_off [] = []
symbols strtab_off (l ∷ ls) =
    fields32 (strtab_off ∷ u32 (l.word_addr * 8) ∷ 0 ∷ [])
    ++ (0x10 ∷ 0 ∷ elf_u16 1)
    ++ symbols (u32 (strtab_off + length l.name + 1)) ls

unfoldable pub symtab : List Label → List ℕ
unfolding symbols
symtab labels = replicate 16 0 ++ symbols 1 labels

unfoldable pub strtab : List Label → List ℕ
unfolding names
strtab labels = 0 ∷ names labels

unfoldable pub section_headers : List Label → List ℕ → List ℕ
unfolding fields32 strtab_sz off_shstrtab
section_headers labels code =
    replicate 40 0
    ++ fields32 (1 ∷ 1 ∷ 6 ∷ 0 ∷ off_text ∷ text_sz code ∷ 0 ∷ 0 ∷ 4 ∷ 0 ∷ [])
    ++ fields32 (7 ∷ 2 ∷ 0 ∷ 0 ∷ off_symtab code ∷ sym_sz labels ∷ 3 ∷ 1 ∷ 4 ∷ 16 ∷ [])
    ++ fields32 (15 ∷ 3 ∷ 0 ∷ 0 ∷ off_strtab labels code ∷ strtab_sz labels ∷ 0 ∷ 0 ∷ 1 ∷ 0 ∷ [])
    ++ fields32 (23 ∷ 3 ∷ 0 ∷ 0 ∷ off_shstrtab labels code ∷ 33 ∷ 0 ∷ 0 ∷ 1 ∷ 0 ∷ [])

unfoldable pub headers : List Label → List ℕ → List ℕ
unfolding elf_header program_header off_shdrs
headers labels code = elf_header (off_shdrs labels code) ++ program_header (text_sz code)

unfoldable pub write_elf : List Label → List ℕ → List ℕ
unfolding headers fields32 symtab strtab section_headers
write_elf labels code =
    headers labels code
    ++ fields32 code
    ++ symtab labels
    ++ strtab labels
    ++ shstrtab_data
    ++ section_headers labels code
