-- ===== src/Sim/Exec/Memory.antt =====
-- The loads and stores of execute() in simulator/sim.c: words, bytes and EEPROM words. In the
-- built machine some addresses lead to the GPU.
use oxalyn.Base.{
  ℕ, ◌+◌, ◌-◌, ◌*◌, ◌/◌, ◌%◌, ◌^◌, Bool, true, ◌&&◌, Option, some, bit_and, bit_or, ltb, leb, ◌==◌,
  if◌then◌else◌, u32, add64, shr, not64, sext32, update,
}
use oxalyn.Sim.Port
use oxalyn.Sim.State.{Cpu, eeprom_size, write_reg, gpu_read_word, gpu_write_word}
use oxalyn.Sim.Exec.Insn.{Insn}

-- The words at the addresses of the GPU's ports.
unfoldable pub is_gpu_mmio_word : ℕ → Bool
is_gpu_mmio_word addr = leb Port.gpu_id addr && leb addr Port.gpu_debug

-- `(uint32_t)((int32_t)reg[fa] + imm)`
unfoldable pub address : Insn → Cpu → ℕ
address i c = u32 (add64 (sext32 (c.reg i.fa)) i.imm)

unfoldable pub exec_load : Insn → Cpu → Option Cpu
exec_load i c =
    let addr = address i c % 2 ^ 16 in
    let (v, c') = gpu_read_word c addr in
    if i.fd == 0
    then some c
    else if is_gpu_mmio_word addr
    then some (write_reg c' i.fd v)
    else some (write_reg c i.fd (c.mem addr))

unfoldable pub exec_store : Insn → Cpu → Option Cpu
exec_store i c =
    let addr = address i c % 2 ^ 16 in
    if is_gpu_mmio_word addr
    then some (gpu_write_word c addr (c.reg i.fd))
    else some (record c { mem = update c.mem addr (c.reg i.fd) })

unfoldable pub byte_address : Insn → Cpu → ℕ
byte_address i c = u32 (add64 (c.reg i.fa) i.imm)

-- The word of a byte address, and the place of the byte in it: byte 0 is the highest.
abbrev pub word_of : ℕ → ℕ
word_of byte_addr = shr byte_addr 3 % 2 ^ 16

abbrev pub byte_shift : ℕ → ℕ
byte_shift byte_addr = 56 - byte_addr % 8 * 8

-- wasm_gpu_mmio_byte: the byte window onto the GPU's ports.
unfoldable pub wasm_gpu_mmio_byte : ℕ → Bool
wasm_gpu_mmio_byte byte_addr = leb 0x10000 byte_addr && ltb byte_addr (0x10000 + 256 * 8)

abbrev pub mmio_port : ℕ → ℕ
mmio_port byte_addr = (byte_addr - 0x10000) / 8

abbrev pub mmio_offset : ℕ → ℕ
mmio_offset byte_addr = (byte_addr - 0x10000) % 8

unfoldable pub exec_loadb : Insn → Cpu → Option Cpu
exec_loadb i c =
    let a = byte_address i c in
    let (v, c') = gpu_read_word c (mmio_port a) in
    if i.fd == 0
    then some c
    else if wasm_gpu_mmio_byte a
    then some (write_reg c' i.fd (shr v (mmio_offset a * 8) % 256))
    else some (write_reg c i.fd (shr (c.mem (word_of a)) (byte_shift a) % 256))

-- A word with the byte at shift `s` replaced.
abbrev pub put_byte : ℕ → ℕ → ℕ → ℕ
put_byte w s b = bit_or (bit_and w (not64 (0xFF * 2 ^ s))) (b % 256 * 2 ^ s)

-- A byte for the GPU goes into the shadow of its port; the first one loads the shadow, and the
-- last one hands it to the GPU.
unfoldable pub store_gpu_byte : ℕ → ℕ → ℕ → Cpu → Cpu
store_gpu_byte port offset b c =
    let (v, c') = gpu_read_word c port in
    let c = if offset == 0 then set_shadow c' v else c in
    let w = put_byte (c.gpu.mmio_shadow port) (offset * 8) b in
    let c = set_shadow c w in if offset == 7 then gpu_write_word c port w else c
  where
    set_shadow : Cpu → ℕ → Cpu
    set_shadow c w = record c {
      gpu = record c.gpu { mmio_shadow = update c.gpu.mmio_shadow port w };
    }

unfoldable pub exec_storeb : Insn → Cpu → Option Cpu
exec_storeb i c =
    let a = byte_address i c in
    let b = c.reg i.fd in
    if wasm_gpu_mmio_byte a
    then some (store_gpu_byte (mmio_port a) (mmio_offset a) b c)
    else some (record c {
      mem = update c.mem (word_of a) (put_byte (c.mem (word_of a)) (byte_shift a) b);
    })

unfoldable pub exec_eload : Insn → Cpu → Option Cpu
exec_eload i c = some (write_reg c i.fd (c.eeprom (address i c % eeprom_size)))

unfoldable pub exec_estore : Insn → Cpu → Option Cpu
exec_estore i c = some (record c {
  eeprom = update c.eeprom (address i c % eeprom_size) (c.reg i.fd);
  eeprom_dirty = true;
})
