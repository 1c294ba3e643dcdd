-- ===== src/Sim/Opcode.antt =====
-- The opcodes of simulator/sim.c.
use oxalyn.Base.{ℕ}

abbrev pub nop : ℕ
nop = 0x00

abbrev pub add : ℕ
add = 0x01

abbrev pub sub : ℕ
sub = 0x02

abbrev pub and : ℕ
and = 0x03

abbrev pub or : ℕ
or = 0x04

abbrev pub xor : ℕ
xor = 0x05

abbrev pub shl : ℕ
shl = 0x06

abbrev pub shr : ℕ
shr = 0x07

abbrev pub load : ℕ
load = 0x08

abbrev pub store : ℕ
store = 0x09

abbrev pub li : ℕ
li = 0x0A

abbrev pub jmp : ℕ
jmp = 0x0B

abbrev pub jz : ℕ
jz = 0x0C

abbrev pub jnz : ℕ
jnz = 0x0D

abbrev pub call : ℕ
call = 0x0E

abbrev pub ret : ℕ
ret = 0x0F

abbrev pub out : ℕ
out = 0x10

abbrev pub inp : ℕ
inp = 0x11

abbrev pub ecall : ℕ
ecall = 0x12

abbrev pub eret : ℕ
eret = 0x13

abbrev pub csrw : ℕ
csrw = 0x14

abbrev pub csrr : ℕ
csrr = 0x15

abbrev pub rand : ℕ
rand = 0x16

abbrev pub fence : ℕ
fence = 0x17

abbrev pub aese : ℕ
aese = 0x18

abbrev pub hash : ℕ
hash = 0x19

abbrev pub mul : ℕ
mul = 0x1A

abbrev pub div : ℕ
div = 0x1B

abbrev pub eload : ℕ
eload = 0x1C

abbrev pub estore : ℕ
estore = 0x1D

abbrev pub rflags : ℕ
rflags = 0x1E

abbrev pub wfi : ℕ
wfi = 0x1F

abbrev pub lui : ℕ
lui = 0x20

abbrev pub jalr : ℕ
jalr = 0x21

abbrev pub cmpeq : ℕ
cmpeq = 0x22

abbrev pub cmpne : ℕ
cmpne = 0x23

abbrev pub cmplt : ℕ
cmplt = 0x24

abbrev pub cmple : ℕ
cmple = 0x25

abbrev pub cmpltu : ℕ
cmpltu = 0x26

abbrev pub cmpleu : ℕ
cmpleu = 0x27

abbrev pub bset : ℕ
bset = 0x28

abbrev pub bclr : ℕ
bclr = 0x29

abbrev pub btest : ℕ
btest = 0x2A

abbrev pub loadb : ℕ
loadb = 0x2B

abbrev pub storeb : ℕ
storeb = 0x2C

abbrev pub divu : ℕ
divu = 0x2D

abbrev pub rem : ℕ
rem = 0x2E

abbrev pub remu : ℕ
remu = 0x2F

abbrev pub halt : ℕ
halt = 0x3F
