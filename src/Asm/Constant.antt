-- ===== src/Asm/Constant.antt =====
-- What the machine of simulator/sim.c does with the words that emit_movi_words of asm.c writes.
use oxalyn.Base.{
  ℕ, zero, suc, ◌+◌, ◌*◌, ◌/◌, ◌%◌, ◌^◌, ◌≡◌, ◌≢◌, ◌<◌, ◌≤◌, refl, sym, ap, ◌∙◌, arith, Option,
  some, List, [], ◌∷◌, bit_or, u64, update,
}
use native.Mathlib.Nat.{
  pow-suc, one-le-pow, div-add-mod, div-div-eq-div-mul, pow-le-pow_right, mod-lt,
}
use oxalyn.Base.Bits.{has-pow, bit}
use mathlib.Core.Option
use oxalyn.Asm.Op.{op_li, op_shl, op_or}
use oxalyn.Asm.{encode, movi_rest, byte_at}
use oxalyn.Base.Digits.{bit_or-multiple}
use oxalyn.Asm.Encoding.{decode-encode}
use oxalyn.Sim.State.{Cpu, write_reg}
use oxalyn.Sim.Exec.Insn.{Insn, decode, sign_extend11}
use oxalyn.Sim.Exec.Table.{execute, clear_r0, handler_of, handlers}
use oxalyn.Sim.Exec.Alu.{exec_alu, exec_imm, alu_li, alu_shl}

-- The words of a program without jumps, one after the other.
unfoldable pub run_words : List ℕ → Cpu → Option Cpu
run_words [] c = some c
run_words (w ∷ ws) c = Option.bind (execute w c) λ d. run_words ws d

abbrev pub set_reg : Cpu → ℕ → ℕ → Cpu
set_reg c fd v = clear_r0 (write_reg c fd v)

small_immediate : (b : ℕ) → b < 1024 → sign_extend11 (b % 2048) ≡ b
unfolding sign_extend11 bit
small_immediate b h = let e : b % 2048 ≡ b = omega arith in rw (e, has-pow 10 b) (ground arith)

-- What a word does follows from what it is taken apart into.
execute-decode :
    (w : ℕ) (i : Insn) (c : Cpu)
    → decode w ≡ i
    → execute w c ≡ Option.map clear_r0 (handler_of handlers i.opcode i c)
unfolding execute
execute-decode w i c e = ap (λ (j : Insn). Option.map clear_r0 (handler_of handlers j.opcode j c)) e

abbrev fields : ℕ → ℕ → ℕ → ℕ → ℕ → Insn
fields op fd fa fb imm = record { opcode = op; fd = fd; fa = fa; fb = fb; imm = imm }

decode-small :
    (op fd fa fb imm : ℕ)
    → op < 64
    → fd < 32
    → fa < 32
    → fb < 32
    → imm < 1024
    → decode (encode op fd fa fb imm) ≡ fields op fd fa fb imm
decode-small op fd fa fb imm hop hfd hfa hfb himm =
    rw (decode-encode op fd fa fb imm hop hfd hfa hfb, small_immediate imm himm) refl

pub execute_li :
    (rd b : ℕ) (c : Cpu)
    → rd < 32
    → b < 1024
    → execute (encode op_li rd 0 0 b) c ≡ some (set_reg c rd b)
unfolding handlers handler_of exec_imm alu_li
execute_li rd b c h hb =
    execute-decode (encode op_li rd 0 0 b) (fields op_li rd 0 0 b) c
      (decode-small op_li rd 0 0 b (omega arith) h (omega arith) (omega arith) hb)

execute_shl :
    (rd : ℕ) (c : Cpu)
    → rd < 32
    → execute (encode op_shl rd rd 0 8) c ≡ some (set_reg c rd (u64 (c.reg rd * 256)))
unfolding handlers handler_of exec_imm alu_shl
execute_shl rd c h =
    execute-decode (encode op_shl rd rd 0 8) (fields op_shl rd rd 0 8) c
      (decode-small op_shl rd rd 0 8 (omega arith) h h (omega arith) (omega arith))

execute_or :
    (rd temp : ℕ) (c : Cpu)
    → rd < 32
    → temp < 32
    → execute (encode op_or rd rd temp 0) c ≡ some (set_reg c rd (bit_or (c.reg rd) (c.reg temp)))
unfolding handlers handler_of exec_alu
execute_or rd temp c h ht =
    execute-decode (encode op_or rd rd temp 0) (fields op_or rd rd temp 0) c
      (decode-small op_or rd rd temp 0 (omega arith) h h ht (omega arith))

pub set_reg_self : (c : Cpu) (fd v : ℕ) → fd ≢ 0 → (set_reg c fd v).reg fd ≡ v
unfolding write_reg clear_r0 update
set_reg_self c fd v h = ground arith

pub set_reg_ne : (c : Cpu) (fd v j : ℕ) → j ≢ 0 → j ≢ fd → (set_reg c fd v).reg j ≡ c.reg j
unfolding write_reg clear_r0 update
set_reg_ne c fd v j h k = ground arith

pub set_reg_rest :
    (c : Cpu) (fd v : ℕ) (r : ℕ → ℕ) → record (set_reg c fd v) { reg = r } ≡ record c { reg = r }
unfolding write_reg clear_r0
set_reg_rest c fd v r = refl

-- A run ended with `v` in `rd`; the helper register apart, nothing else has changed.
abbrev pub Loads : ℕ → ℕ → ℕ → Cpu → Cpu → Type 0
Loads rd temp v c d =
    (d.reg rd ≡ v)
    × ((j : ℕ) → j ≢ 0 → j ≢ rd → j ≢ temp → d.reg j ≡ c.reg j)
    × (record d { reg = c.reg } ≡ c)

abbrev pub RunLoads : ℕ → ℕ → ℕ → Cpu → List ℕ → Type 0
RunLoads rd temp v c ws = (d : Cpu) × (run_words ws c ≡ some d) × Loads rd temp v c d

abbrev add_byte : ℕ → ℕ → ℕ → Cpu → Cpu
add_byte rd temp b c =
    let c1 = set_reg c rd (u64 (c.reg rd * 256)) in
    let c2 = set_reg c1 temp b in set_reg c2 rd (bit_or (c2.reg rd) (c2.reg temp))

mod_byte : (y p : ℕ) → 1 ≤ p → y / 256 % p * 256 + y % 256 ≡ y % (p * 256)
mod_byte y p h = grind (arith, div-add-mod (y / 256) p)

add_byte_lem :
    (rd temp a b : ℕ) (c : Cpu)
    → rd ≢ 0
    → temp ≢ 0
    → rd ≢ temp
    → b < 256
    → c.reg rd ≡ a
    → a < 2 ^ 56
    → Loads rd temp (a * 256 + b) c (add_byte rd temp b c)
add_byte_lem rd temp a b c h0 h1 h2 hb e ha =
    let c1 = set_reg c rd (u64 (c.reg rd * 256)) in
    let c2 = set_reg c1 temp b in
    let v = bit_or (c2.reg rd) (c2.reg temp) in
    let q1 : c2.reg rd ≡ a * 2 ^ 8 =
      set_reg_ne c1 temp b rd h0 h2 ∙ set_reg_self c rd (u64 (c.reg rd * 256)) h0 ∙ omega arith in
    let q2 : c2.reg temp ≡ b = set_reg_self c1 temp b h1 in
    let q3 : v ≡ a * 256 + b = rw (q1, q2) (bit_or-multiple 8 (a * 2 ^ 8) a b refl hb) in
    (
      set_reg_self c2 rd v h0 ∙ q3,
      λ j k0 k1 k2.
          set_reg_ne c2 rd v j k0 k1
          ∙ set_reg_ne c1 temp b j k0 k2
          ∙ set_reg_ne c rd (u64 (c.reg rd * 256)) j k0 k1,
      set_reg_rest c2 rd v c.reg
          ∙ set_reg_rest c1 temp b c.reg
          ∙ set_reg_rest c rd (u64 (c.reg rd * 256)) c.reg,
    )

pub run_words-next :
    (w : ℕ) (ws : List ℕ) (c d : Cpu) → execute w c ≡ some d → run_words (w ∷ ws) c ≡ run_words ws d
unfolding run_words Option.bind
run_words-next w ws c d e = ap (λ (o : Option Cpu). Option.bind o (λ x. run_words ws x)) e

add_byte-run :
    (rd temp b : ℕ) (ws : List ℕ) (c : Cpu)
    → rd < 32
    → temp < 32
    → b < 256
    → run_words
        (encode op_shl rd rd 0 8 ∷ encode op_li temp 0 0 b ∷ encode op_or rd rd temp 0 ∷ ws)
        c
      ≡ run_words ws (add_byte rd temp b c)
unfolding run_words Option.bind
add_byte-run rd temp b ws c r t hb =
    let c1 = set_reg c rd (u64 (c.reg rd * 256)) in
    let c2 = set_reg c1 temp b in
    let w2 = encode op_li temp 0 0 b in
    let w3 = encode op_or rd rd temp 0 in
    run_words-next (encode op_shl rd rd 0 8) (w2 ∷ w3 ∷ ws) c c1 (execute_shl rd c r)
    ∙ run_words-next w2 (w3 ∷ ws) c1 c2 (execute_li temp b c1 t (omega arith))
    ∙ run_words-next w3 ws c2 (add_byte rd temp b c) (execute_or rd temp c2 r t)

pub Loads-trans :
    (rd temp a v : ℕ) (c d z : Cpu)
    → Loads rd temp a c d
    → Loads rd temp v d z
    → Loads rd temp v c z
Loads-trans rd temp a v c d z (_, others, rest) (holds, others', rest') = (
  holds,
  λ j p q k. others' j p q k ∙ others j p q k,
  ap (λ (s : Cpu). record s { reg = c.reg }) rest' ∙ rest,
)

pub pow_byte : (k : ℕ) → 2 ^ (suc k * 8) ≡ 2 ^ (k * 8) * 256
pow_byte k =
    let e : suc k * 8 ≡ suc (suc (suc (suc (suc (suc (suc (suc (k * 8)))))))) = omega arith in
    rw (e, pow-suc) (omega arith)

next_byte :
    (value i m : ℕ)
    → value / 2 ^ (suc i * 8) % 2 ^ (m * 8) * 256 + byte_at value i
      ≡ value / 2 ^ (i * 8) % 2 ^ (suc m * 8)
next_byte value i m =
    rw (pow_byte i, pow_byte m, sym (div-div-eq-div-mul value (2 ^ (i * 8)) 256))
      (mod_byte (value / 2 ^ (i * 8)) (2 ^ (m * 8)) (one-le-pow (m * 8) 2 (omega arith)))

few_bytes : (x m : ℕ) → m ≤ 7 → x % 2 ^ (m * 8) < 2 ^ 56
few_bytes x m h =
    let p = pow-le-pow_right {n = 2} (omega arith) {i = m * 8} {j = 56} (omega arith) in
    let q = mod-lt x {m = 2 ^ (m * 8)} (one-le-pow (m * 8) 2 (omega arith)) in omega (arith, p, q)

-- The words after the first add the bytes that are left, the highest first.
pub movi_rest-run :
    (rd temp value i m : ℕ) (c : Cpu)
    → rd < 32
    → temp < 32
    → rd ≢ 0
    → temp ≢ 0
    → rd ≢ temp
    → i + m ≤ 8
    → c.reg rd ≡ value / 2 ^ (i * 8) % 2 ^ (m * 8)
    → RunLoads rd temp (value % 2 ^ ((i + m) * 8)) c (movi_rest rd temp value i)
unfolding movi_rest run_words
movi_rest-run rd temp value zero m c r t h0 h1 h2 l e =
    let all : value / 2 ^ (0 * 8) ≡ value = omega arith in
    let count : (0 + m) * 8 ≡ m * 8 = omega arith in
    (c, refl, (rw (count, sym all) e, (λ j a b k. refl), refl))
movi_rest-run rd temp value (suc i) m c r t h0 h1 h2 l e =
    let b = byte_at value i in
    let a = value / 2 ^ (suc i * 8) % 2 ^ (m * 8) in
    let d = add_byte rd temp b c in
    let small : b < 256 = omega arith in
    let step =
      add_byte_lem rd temp a b c h0 h1 h2 small e
        (few_bytes (value / 2 ^ (suc i * 8)) m (omega arith)) in
    let (z, runs, loads) =
      movi_rest-run rd temp value i (suc m) d r t h0 h1 h2 (omega arith)
        (step.0 ∙ next_byte value i m) in
    let count : (suc i + m) * 8 ≡ (i + suc m) * 8 = omega arith in
    let v = value % 2 ^ ((i + suc m) * 8) in
    (
      z,
      add_byte-run rd temp b (movi_rest rd temp value i) c r t small ∙ runs,
      rw count (Loads-trans rd temp (a * 256 + b) v c d z step loads),
    )
