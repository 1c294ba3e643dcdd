-- ===== src/Kernel/Ipc/Pipe/Fifo.antt =====
-- One pipe against a queue of at most 255 bytes.
use oxalyn.Base.{
  ℕ, zero, suc, ◌+◌, ◌-◌, ◌%◌, ◌<◌, ◌≡◌, ◌≢◌, refl, sym, ap, ◌∙◌, true, List, [], ◌∷◌, ◌++◌, length,
  arith, min, take, drop, update, ◌==◌, inl, inr, Bool-cases,
}
use mathlib.Core.List.{append-nil, append_assoc}
use oxalyn.Kernel.Ipc.Window.{IsRing, window, length-window, window-push}
use oxalyn.Kernel.Ipc.Pipe.{Pipe, buf_size, fill, write_loop, read_loop}

ring : IsRing buf_size
ring = record {
  shift = λ t k. omega arith;
  apart = λ t k h p q. omega arith;
  below = λ t. omega arith;
  start = λ t h. omega arith;
}

-- The bytes in a pipe, oldest first.
abbrev pub contents : Pipe → List ℕ
unfolding fill
contents p = window buf_size p.buf p.tail (fill p)

-- Both indices are within the buffer.
abbrev pub IsValid : Pipe → Type 0
IsValid p = (p.head < buf_size) × (p.tail < buf_size)

abbrev pushed : Pipe → ℕ → Pipe
pushed p b = record p { buf = update p.buf p.head b; head = (p.head + 1) % buf_size }

abbrev popped : Pipe → Pipe
popped p = record p { tail = (p.tail + 1) % buf_size }

contents-pushed :
    (p : Pipe) (b : ℕ)
    → IsValid p
    → (p.head + 1) % buf_size ≢ p.tail
    → contents (pushed p b) ≡ contents p ++ (b ∷ [])
unfolding fill
contents-pushed p b v h =
    let n = (p.head + buf_size - p.tail) % buf_size in
    let more : ((p.head + 1) % buf_size + buf_size - p.tail) % buf_size ≡ suc n = omega arith in
    rw more (window-push buf_size ring p.buf p.tail n p.head b (omega arith) v.1 (omega arith))

contents-popped :
    (p : Pipe) → IsValid p → p.tail ≢ p.head → contents p ≡ p.buf p.tail ∷ contents (popped p)
unfolding fill
contents-popped p v h =
    let n = (p.head + buf_size - (p.tail + 1) % buf_size) % buf_size in
    let more : (p.head + buf_size - p.tail) % buf_size ≡ suc n = omega arith in rw more refl

pub contents-empty : (p : Pipe) → IsValid p → (p.tail == p.head) ≡ true → contents p ≡ []
unfolding fill
contents-empty p v e =
    let nothing : (p.head + buf_size - p.tail) % buf_size ≡ 0 = ground arith in rw nothing refl

pub length-contents : (p : Pipe) → length (contents p) ≡ (p.head + buf_size - p.tail) % buf_size
unfolding fill
length-contents p = length-window buf_size p.buf p.tail (fill p)

-- How many bytes the buffer takes: one cell stays empty.
abbrev pub room : Pipe → ℕ
room p = buf_size - 1 - length (contents p)

-- What pipe_write's loop does: it takes as many bytes as there is room for, and appends them.
pub write_loop_lem :
    (p : Pipe) (bs : List ℕ)
    → IsValid p
    → let (written, p') = write_loop p bs in
      (written ≡ min (length bs) (room p))
      × (contents p' ≡ contents p ++ take written bs)
      × IsValid p'
unfolding write_loop
write_loop_lem p [] v = (omega arith, sym (append-nil (contents p)), v)
write_loop_lem p (b ∷ bs) v = elim (Bool-cases ((p.head + 1) % buf_size == p.tail)) [
  | inl full ↦ rw full (ground (arith, length-contents p), sym (append-nil (contents p)), v)
  | inr space ↦
      let apart : (p.head + 1) % buf_size ≢ p.tail = ground arith in
      let (n, more, v') = write_loop_lem (pushed p b) bs (omega arith, v.1) in
      let (taken, p') = write_loop (pushed p b) bs in
      rw space (
        omega (arith, n, length-contents p, length-contents (pushed p b)),
        more
            ∙ ap (λ l. l ++ take taken bs) (contents-pushed p b v apart)
            ∙ append_assoc (contents p) _ _,
        v',
      )
]

-- What pipe_read's loop does: it takes the oldest bytes, as many as asked for or as there are.
pub read_loop_lem :
    (p : Pipe) (maxlen : ℕ)
    → IsValid p
    → let (bs, p') = read_loop p maxlen in
      (bs ≡ take maxlen (contents p)) × (contents p' ≡ drop maxlen (contents p)) × IsValid p'
unfolding read_loop
read_loop_lem p zero v = (refl, refl, v)
read_loop_lem p (suc maxlen) v = elim (Bool-cases (p.tail == p.head)) [
  | inl empty ↦
      let e : contents p ≡ [] = contents-empty p v empty in
      rw empty (sym (ap (take (suc maxlen)) e), e ∙ sym (ap (drop (suc maxlen)) e), v)
  | inr some_left ↦
      let apart : p.tail ≢ p.head = ground arith in
      let (taken, left, v') = read_loop_lem (popped p) maxlen (v.0, omega arith) in
      rw (some_left, contents-popped p v apart) (ap (λ l. p.buf p.tail ∷ l) taken, left, v')
]

pub write_loop-used : (p : Pipe) (bs : List ℕ) → (write_loop p bs).1.used ≡ p.used
unfolding write_loop
write_loop-used p [] = refl
write_loop-used p (b ∷ bs) = elim (Bool-cases ((p.head + 1) % buf_size == p.tail)) [
  | inl full ↦ rw full refl
  | inr space ↦ rw space (write_loop-used (pushed p b) bs)
]

pub read_loop-used : (p : Pipe) (maxlen : ℕ) → (read_loop p maxlen).1.used ≡ p.used
unfolding read_loop
read_loop-used p zero = refl
read_loop-used p (suc maxlen) = elim (Bool-cases (p.tail == p.head)) [
  | inl empty ↦ rw empty refl
  | inr some_left ↦ rw some_left (read_loop-used (popped p) maxlen)
]
