-- ===== src/Kernel/Ipc/Pipe/Api.antt =====
-- The pipes of kernel/ipc.c against the queues of Spec and the pipes of Promise.
use mathlib.Core.Path.{fun_ext}
use oxalyn.Base.{
  ℕ, zero, suc, ◌+◌, ◌*◌, ◌≡◌, refl, sym, ap, ◌∙◌, subst, Bool, true, false, not, ◌&&◌, List, [],
  ◌∷◌, ◌++◌, Option, none, some, if◌then◌else◌, update, take, inl, inr, Bool-cases, arith, ◌==◌,
}
use oxalyn.Base.Int.{ℤ, pos}
use oxalyn.Kernel.Ipc.Slot.{at_slot, at_slot-rel}
use oxalyn.Kernel.Ipc.Pipe.{
  Pipe, Pipes, fill, fd_to_pipe, is_write, first_unused, fresh, pipe_create, write_loop, read_loop,
  pipe_write, pipe_read, pipe_close, pipe_available, base_fd, max_pipes,
}
use oxalyn.Kernel.Ipc.Pipe.Fifo.{
  IsValid, contents, length-contents, contents-empty, write_loop_lem, read_loop_lem,
  write_loop-used, read_loop-used,
}
use oxalyn.Kernel.Ipc.Pipe.Promise
use oxalyn.Kernel.Ipc.Pipe.Promise.{ClosesBoth}
use oxalyn.Kernel.Ipc.Pipe.Ends.{opened, pipe_run-opened}
use oxalyn.Kernel.Ipc.Pipe.Spec
use oxalyn.Kernel.Ipc.Pipe.Spec.{
  Queues, first_none, Call, create, write, read, close, available, Reply, created, wrote, got,
  closed, waiting,
}

abbrev pub queue_of : Pipe → Option (List ℕ)
queue_of p = if p.used then some (contents p) else none

-- What the specification sees of the table.
abbrev pub abs : Pipes → Queues
abs t i = queue_of (t i)

abbrev pub AllValid : Pipes → Type 0
AllValid t = (i : ℕ) → IsValid (t i)

AllValid-update : (t : Pipes) (i : ℕ) (p : Pipe) → AllValid t → IsValid p → AllValid (update t i p)
unfolding update
AllValid-update t i p v w j = elim (Bool-cases (j == i)) [ inl e ↦ rw e w | inr e ↦ rw e (v j) ]

abs-update : (t : Pipes) (i : ℕ) (p : Pipe) → abs (update t i p) ≡ update (abs t) i (queue_of p)
unfolding update
abs-update t i p =
    fun_ext (λ j. elim (Bool-cases (j == i)) [ inl e ↦ rw e refl | inr e ↦ rw e refl ])

first_unused-abs : (t : Pipes) (left i : ℕ) → first_unused t left i ≡ first_none (abs t) left i
unfolding first_unused
first_unused-abs t zero i = refl
first_unused-abs t (suc left) i = elim (Bool-cases (t i).used) [
  | inl e ↦ rw e (first_unused-abs t left (i + 1))
  | inr e ↦ rw e refl
]

-- The same answer, and a table in which the specification sees its own next state.
abbrev pub Rel {ℓ} : {A : Type ℓ} → A × Pipes → A × Queues → Type ℓ
Rel (x, t) (y, a) = (x ≡ y) × (abs t ≡ a) × AllValid t

put-Rel {ℓ} :
    {A : Type ℓ} (x y : A) (t : Pipes) (i : ℕ) (p : Pipe) (q : Option (List ℕ))
    → x ≡ y
    → AllValid t
    → IsValid p
    → queue_of p ≡ q
    → Rel (x, update t i p) (y, update (abs t) i q)
put-Rel x y t i p q e v w k =
    (e, abs-update t i p ∙ ap (update (abs t) i) k, AllValid-update t i p v w)

create-Rel : (t : Pipes) (r w : ℕ) → AllValid t → Rel (pipe_create t r w) (Spec.pipe_create (abs t))
unfolding pipe_create Spec.pipe_create
create-Rel t r w v =
    subst
      (λ o. Rel (pipe_create t r w) (
        at_slot o (none, abs t)
          (λ i. (
            some (i, pos (base_fd + i * 2), pos (base_fd + i * 2 + 1)),
            update (abs t) i (some []),
          ))))
      (first_unused-abs t max_pipes 0)
      (at_slot-rel Rel (first_unused t max_pipes 0) (refl, refl, v)
        (λ i.
          put-Rel _ _ t i (fresh r w) (some []) refl v (omega arith, omega arith)
            (ap some (contents-empty (fresh r w) (omega arith, omega arith) refl))))

write_to-Rel :
    (t : Pipes) (i : ℕ) (b u : Bool) (bs : List ℕ)
    → AllValid t
    → (t i).used ≡ u
    → Rel
        (if b && u
          then (some (write_loop (t i) bs).0, update t i (write_loop (t i) bs).1)
          else (none, t))
        (Spec.write_to (abs t) i (if u then some (contents (t i)) else none) b bs)
write_to-Rel t i false false bs v e = (refl, refl, v)
write_to-Rel t i false true bs v e = (refl, refl, v)
write_to-Rel t i true false bs v e = (refl, refl, v)
write_to-Rel t i true true bs v e =
    let (n, more, ok) = write_loop_lem (t i) bs (v i) in
    let (written, p) = write_loop (t i) bs in
    put-Rel _ _ t i p _ (ap some n) v ok
      (rw (write_loop-used (t i) bs ∙ e) (ap some (more ∙ ap (λ k. contents (t i) ++ take k bs) n)))

write-Rel :
    (t : Pipes) (fd : ℤ) (bs : List ℕ)
    → AllValid t
    → Rel (pipe_write t fd bs) (Spec.pipe_write (abs t) fd bs)
unfolding pipe_write Spec.pipe_write
write-Rel t fd bs v =
    at_slot-rel Rel (fd_to_pipe fd) (refl, refl, v)
      (λ i. write_to-Rel t i (is_write fd) (t i).used bs v refl)

read_from-Rel :
    (t : Pipes) (i : ℕ) (b u : Bool) (n : ℕ)
    → AllValid t
    → (t i).used ≡ u
    → Rel
        (if not b && u
          then (some (read_loop (t i) n).0, update t i (read_loop (t i) n).1)
          else (none, t))
        (Spec.read_from (abs t) i (if u then some (contents (t i)) else none) b n)
read_from-Rel t i false false n v e = (refl, refl, v)
read_from-Rel t i true true n v e = (refl, refl, v)
read_from-Rel t i true false n v e = (refl, refl, v)
read_from-Rel t i false true n v e =
    let (taken, left, ok) = read_loop_lem (t i) n (v i) in
    let (bs, p) = read_loop (t i) n in
    put-Rel _ _ t i p _ (ap some taken) v ok (rw (read_loop-used (t i) n ∙ e) (ap some left))

read-Rel :
    (t : Pipes) (fd : ℤ) (n : ℕ) → AllValid t → Rel (pipe_read t fd n) (Spec.pipe_read (abs t) fd n)
unfolding pipe_read Spec.pipe_read
read-Rel t fd n v =
    at_slot-rel Rel (fd_to_pipe fd) (refl, refl, v)
      (λ i. read_from-Rel t i (is_write fd) (t i).used n v refl)

close-Rel :
    (t : Pipes) (fd : ℤ)
    → AllValid t
    → (abs (pipe_close t fd) ≡ Spec.pipe_close (abs t) fd) × AllValid (pipe_close t fd)
unfolding pipe_close Spec.pipe_close
close-Rel t fd v =
    at_slot-rel (λ t' a. (abs t' ≡ a) × AllValid t') (fd_to_pipe fd) (refl, v)
      (λ i.
        let p = record (t i) { used = false } in (abs-update t i p, AllValid-update t i p v (v i)))

available-eq : (t : Pipes) (fd : ℤ) → pipe_available t fd ≡ Spec.pipe_available (abs t) fd
unfolding pipe_available Spec.pipe_available fill
available-eq t fd = at_slot-rel (λ n m. n ≡ m) (fd_to_pipe fd) refl (λ i. count (t i) (t i).used)
  where
    count :
        (p : Pipe) (u : Bool)
        → (if u then fill p else 0) ≡ Spec.waiting_in (if u then some (contents p) else none)
    count p true = sym (length-contents p)
    count p false = refl

-- A client's call of the C functions.
unfoldable pub serve : Pipes → Call → Reply × Pipes
serve t (create r w) = let (o, t') = pipe_create t r w in (created o, t')
serve t (write fd bs) = let (o, t') = pipe_write t fd bs in (wrote o, t')
serve t (read fd n) = let (o, t') = pipe_read t fd n in (got o, t')
serve t (close fd) = (closed, pipe_close t fd)
serve t (available fd) = (waiting (pipe_available t fd), t)

unfoldable pub pipe_run : Pipes → List Call → List Reply
unfolding serve
pipe_run t [] = []
pipe_run t (c ∷ cs) = let (r, t') = serve t c in r ∷ pipe_run t' cs

serve-Rel : (t : Pipes) (c : Call) → AllValid t → Rel (serve t c) (Spec.serve (abs t) c)
unfolding serve Spec.serve
serve-Rel t (create r w) v = let (e, k, ok) = create-Rel t r w v in (ap created e, k, ok)
serve-Rel t (write fd bs) v = let (e, k, w) = write-Rel t fd bs v in (ap wrote e, k, w)
serve-Rel t (read fd n) v = let (e, k, w) = read-Rel t fd n v in (ap got e, k, w)
serve-Rel t (close fd) v = let (k, w) = close-Rel t fd v in (refl, k, w)
serve-Rel t (available fd) v = (ap waiting (available-eq t fd), refl, v)

pipe_run-abs : (t : Pipes) (cs : List Call) → AllValid t → pipe_run t cs ≡ Spec.pipe_run (abs t) cs
unfolding pipe_run Spec.pipe_run
pipe_run-abs t [] v = refl
pipe_run-abs t (c ∷ cs) v =
    let (e, k, w) = serve-Rel t c v in
    let (r, t') = serve t c in
    ap (λ x. x ∷ pipe_run t' cs) e
    ∙ ap (λ l. (Spec.serve (abs t) c).0 ∷ l) (pipe_run-abs t' cs w ∙ ap (λ a. Spec.pipe_run a cs) k)

-- Whatever calls the clients of the pipes make, in any order and on any descriptors, they see the
-- answers of bounded queues that keep the bytes in order: while a pipe is open, no byte is lost,
-- invented or moved to another pipe; a `pipe_close` of either end releases the pipe, with the bytes
-- that wait in it. In runs that close the two ends of a pipe one right after the other (`paired`)
-- these are the answers of the pipes of ipc.h, which release the buffer when both ends are closed.
-- The indices of every pipe start within its buffer.
pub pipe_run-refines :
    (t : Pipes) (cs paired : List Call)
    → AllValid t
    → ClosesBoth paired
    → (pipe_run t cs ≡ Spec.pipe_run (abs t) cs)
      × (pipe_run t paired ≡ Promise.pipe_run (opened (abs t)) paired)
pipe_run-refines t cs paired v both =
    (pipe_run-abs t cs v, pipe_run-abs t paired v ∙ sym (pipe_run-opened (abs t) paired both))
