-- ===== src/Sim/Load/Files.antt =====
-- What the machine of simulator/sim.c finds in its files: programs that asm.c has written, and its own
-- EEPROM.
use oxalyn.Base.{
  ℕ, zero, suc, ◌+◌, ◌*◌, ◌/◌, ◌%◌, ◌^◌, ◌≡◌, ◌<◌, ◌≤◌, refl, sym, ap, ◌∙◌, subst, arith, Bool,
  true, none, some, List, [], ◌∷◌, update, update_self, update-ne, length, get_or, ltb,
  if◌then◌else◌, u32,
}
use oxalyn.Base.Digits.{bit_or-multiple}
use oxalyn.Asm.Pass.{write_bin}
use oxalyn.Sim.State.{Cpu, mem_size, eeprom_size}
use oxalyn.Sim.Load.{word_of, read_words, load_bin, eeprom_load, save_words, eeprom_save}

word_of_bytes :
    (x : ℕ)
    → word_of (x / 2 ^ 24 % 2 ^ 8) (x / 2 ^ 16 % 2 ^ 8) (x / 2 ^ 8 % 2 ^ 8) (x % 2 ^ 8) ≡ u32 x
unfolding word_of
word_of_bytes x =
    let b1 = x / 2 ^ 24 % 2 ^ 8 in
    let b2 = x / 2 ^ 16 % 2 ^ 8 in
    let b3 = x / 2 ^ 8 % 2 ^ 8 in
    let o1 = bit_or-multiple 24 (b1 * 2 ^ 24) b1 (b2 * 2 ^ 16) refl (omega arith) in
    let o2 =
      bit_or-multiple 16 (b1 * 2 ^ 24 + b2 * 2 ^ 16) (b1 * 2 ^ 8 + b2) (b3 * 2 ^ 8) (omega arith)
        (omega arith) in
    let o3 =
      bit_or-multiple 8 (b1 * 2 ^ 24 + b2 * 2 ^ 16 + b3 * 2 ^ 8) (b1 * 2 ^ 16 + b2 * 2 ^ 8 + b3)
        (x % 2 ^ 8) (omega arith) (omega arith) in
    rw (o1, o2, o3) (omega arith)

-- What stands in front of the index is left alone.
read_words-below :
    (left i j : ℕ) (bytes : List ℕ) (mem : ℕ → ℕ) → j < i → read_words left i bytes mem j ≡ mem j
unfolding read_words
read_words-below zero i j bytes mem h = refl
read_words-below (suc left) i j [] mem h = refl
read_words-below (suc left) i j (a ∷ []) mem h = refl
read_words-below (suc left) i j (a ∷ b ∷ []) mem h = refl
read_words-below (suc left) i j (a ∷ b ∷ c ∷ []) mem h = refl
read_words-below (suc left) i j (a ∷ b ∷ c ∷ d ∷ rest) mem h =
    read_words-below left (i + 1) j rest (update mem i (word_of a b c d)) (omega arith)
    ∙ update-ne mem i (word_of a b c d) j (omega arith)

-- A word that was just read is not touched again.
read_words-here :
    (left i x : ℕ) (bytes : List ℕ) (mem : ℕ → ℕ)
    → read_words left (i + 1) bytes (update mem i x) i ≡ x
read_words-here left i x bytes mem =
    read_words-below left (i + 1) i bytes (update mem i x) (omega arith) ∙ update_self mem i x

read_words-write_bin :
    (code : List ℕ) (left i k : ℕ) (mem : ℕ → ℕ)
    → length code ≤ left
    → read_words left i (write_bin code) mem (i + k)
      ≡ (if ltb k (length code) then u32 (get_or code k 0) else mem (i + k))
unfolding read_words write_bin
read_words-write_bin [] zero i k mem h = ground arith
read_words-write_bin [] (suc left) i k mem h = ground arith
read_words-write_bin (x ∷ code) zero i k mem h = absurd (omega arith)
read_words-write_bin (x ∷ code) (suc left) i zero mem h =
    let w = word_of (x / 2 ^ 24 % 2 ^ 8) (x / 2 ^ 16 % 2 ^ 8) (x / 2 ^ 8 % 2 ^ 8) (x % 2 ^ 8) in
    let place : i + 0 ≡ i = omega arith in
    let inside : ltb 0 (suc (length code)) ≡ true = ground arith in
    rw (place, inside) (read_words-here left i w (write_bin code) mem ∙ word_of_bytes x)
read_words-write_bin (x ∷ code) (suc left) i (suc k) mem h =
    let w = word_of (x / 2 ^ 24 % 2 ^ 8) (x / 2 ^ 16 % 2 ^ 8) (x / 2 ^ 8 % 2 ^ 8) (x % 2 ^ 8) in
    let place : i + suc k ≡ i + 1 + k = omega arith in
    let test : ltb (suc k) (suc (length code)) ≡ ltb k (length code) = ground arith in
    let kept = update-ne mem i w (i + 1 + k) (omega arith) in
    rw (place, test)
      (read_words-write_bin code left (i + 1) k (update mem i w) (omega arith)
        ∙ ap (λ (t : ℕ). if ltb k (length code) then u32 (get_or code k 0) else t) kept)

-- A program that asm.c has written and that the memory has room for: each of its words is at its
-- place, as 32 bits, and the memory behind them is as before.
pub load_bin-write_bin :
    (code : List ℕ) (c : Cpu) (j : ℕ)
    → length code ≤ mem_size
    → (load_bin (some (write_bin code)) c).1.mem j
      ≡ (if ltb j (length code) then u32 (get_or code j 0) else c.mem j)
unfolding load_bin
load_bin-write_bin code c j h =
    let place : 0 + j ≡ j = omega arith in
    subst
      (λ (t : ℕ).
        read_words mem_size 0 (write_bin code) c.mem t
        ≡ (if ltb j (length code) then u32 (get_or code j 0) else c.mem t))
      place (read_words-write_bin code mem_size 0 j c.mem h)

read_words-save_words :
    (left i k : ℕ) (eeprom mem : ℕ → ℕ)
    → k < left
    → read_words left i (save_words left i eeprom) mem (i + k) ≡ u32 (eeprom (i + k))
unfolding read_words save_words
read_words-save_words zero i k eeprom mem h = absurd (omega arith)
read_words-save_words (suc left) i zero eeprom mem h =
    let x = eeprom i in
    let w = word_of (x / 2 ^ 24 % 2 ^ 8) (x / 2 ^ 16 % 2 ^ 8) (x / 2 ^ 8 % 2 ^ 8) (x % 2 ^ 8) in
    let place : i + 0 ≡ i = omega arith in
    rw place (read_words-here left i w (save_words left (i + 1) eeprom) mem ∙ word_of_bytes x)
read_words-save_words (suc left) i (suc k) eeprom mem h =
    let x = eeprom i in
    let w = word_of (x / 2 ^ 24 % 2 ^ 8) (x / 2 ^ 16 % 2 ^ 8) (x / 2 ^ 8 % 2 ^ 8) (x % 2 ^ 8) in
    let place : i + suc k ≡ i + 1 + k = omega arith in
    rw place (read_words-save_words left (i + 1) k eeprom (update mem i w) (omega arith))

-- The EEPROM over a run that has changed it: every word comes back from the file that was written,
-- cut to 32 bits.
pub eeprom_load-eeprom_save :
    (c d : Cpu) (i : ℕ)
    → c.eeprom_dirty ≡ true
    → i < eeprom_size
    → (eeprom_load (eeprom_save c) d).eeprom i ≡ u32 (c.eeprom i)
unfolding eeprom_load eeprom_save
eeprom_load-eeprom_save c d i dirty h =
    let place : 0 + i ≡ i = omega arith in
    let back : read_words eeprom_size 0 (save_words eeprom_size 0 c.eeprom) (λ j. 0) i
        ≡ u32 (c.eeprom i) =
      subst
        (λ (t : ℕ).
          read_words eeprom_size 0 (save_words eeprom_size 0 c.eeprom) (λ j. 0) t
          ≡ u32 (c.eeprom t))
        place (read_words-save_words eeprom_size 0 i c.eeprom (λ j. 0) h) in
    subst
      (λ (b : Bool).
        (eeprom_load (if b then some (save_words eeprom_size 0 c.eeprom) else none) d).eeprom i
        ≡ u32 (c.eeprom i))
      (sym dirty) back
