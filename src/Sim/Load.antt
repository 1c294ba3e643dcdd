-- ===== src/Sim/Load.antt =====
-- load_bin, eeprom_load and eeprom_save of simulator/sim.c. A file is the list of its bytes; a file
-- that cannot be opened is none.
pub mod Files
use oxalyn.Base.{
  ℕ, zero, suc, ◌+◌, ◌*◌, ◌/◌, ◌%◌, ◌^◌, Bool, true, false, Option, none, some, if◌then◌else◌, List,
  [], ◌∷◌, bit_or, update,
}
use oxalyn.Sim.State.{Cpu, mem_size, eeprom_size}

-- Four bytes, the highest first.
unfoldable pub word_of : ℕ → ℕ → ℕ → ℕ → ℕ
word_of b1 b2 b3 b4 = bit_or (bit_or (bit_or (b1 * 2 ^ 24) (b2 * 2 ^ 16)) (b3 * 2 ^ 8)) b4

-- The loop that reads words into an array, from index `i` on, until `left` words or the end.
unfoldable pub read_words : ℕ → ℕ → List ℕ → (ℕ → ℕ) → ℕ → ℕ
unfolding word_of
read_words (suc left) i (b1 ∷ b2 ∷ b3 ∷ b4 ∷ rest) mem =
    read_words left (i + 1) rest (update mem i (word_of b1 b2 b3 b4))
read_words _ i bytes mem = mem

unfoldable pub load_bin : Option (List ℕ) → Cpu → Bool × Cpu
unfolding read_words
load_bin none c = (false, c)
load_bin (some bytes) c = (true, record c { mem = read_words mem_size 0 bytes c.mem })

-- eeprom_load clears the array first, and leaves it so where there is no file.
unfoldable pub eeprom_load : Option (List ℕ) → Cpu → Cpu
unfolding read_words
eeprom_load none c = record c { eeprom = λ i. 0 }
eeprom_load (some bytes) c = record c { eeprom = read_words eeprom_size 0 bytes (λ i. 0) }

-- The bytes of `left` words from index `i` on.
unfoldable pub save_words : ℕ → ℕ → (ℕ → ℕ) → List ℕ
save_words zero i eeprom = []
save_words (suc left) i eeprom =
    let v = eeprom i in
    v / 2 ^ 24 % 2 ^ 8
    ∷ v / 2 ^ 16 % 2 ^ 8
    ∷ v / 2 ^ 8 % 2 ^ 8
    ∷ v % 2 ^ 8
    ∷ save_words left (i + 1) eeprom

-- The file that eeprom_save writes, if the contents have changed.
unfoldable pub eeprom_save : Cpu → Option (List ℕ)
unfolding save_words
eeprom_save c = if c.eeprom_dirty then some (save_words eeprom_size 0 c.eeprom) else none
