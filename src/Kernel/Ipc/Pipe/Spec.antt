-- ===== src/Kernel/Ipc/Pipe/Spec.antt =====
-- The pipes as the calls of ipc.c keep them: MAX_PIPES queues of at most 255 bytes, in use or not. How
-- the bytes are kept, and who reads and writes, is not seen. It is what ipc.h promises (see Promise)
-- but for pipe_close.
use oxalyn.Base.{
  ℕ, zero, suc, ◌+◌, ◌-◌, ◌*◌, Bool, true, false, List, [], ◌∷◌, ◌++◌, Option, none, some,
  if◌then◌else◌, update, length, min, take, drop,
}
use oxalyn.Base.Int.{ℤ, pos}
use oxalyn.Kernel.Ipc.Slot.{at_slot}
use oxalyn.Kernel.Ipc.Pipe.{fd_to_pipe, is_write, max_pipes, base_fd, buf_size}

abbrev pub Queues : Type 0
Queues = ℕ → Option (List ℕ)

abbrev pub is_some : Option (List ℕ) → Bool
is_some none = false
is_some (some q) = true

abbrev pub first_none : Queues → ℕ → ℕ → Option ℕ
first_none a zero i = none
first_none a (suc left) i =
    let rest = first_none a left (i + 1) in if is_some (a i) then rest else some i

abbrev pub write_to : Queues → ℕ → Option (List ℕ) → Bool → List ℕ → Option ℕ × Queues
write_to a i none b bs = (none, a)
write_to a i (some q) false bs = (none, a)
write_to a i (some q) true bs =
    let n = min (length bs) (buf_size - 1 - length q) in
    (some n, update a i (some (q ++ take n bs)))

abbrev pub read_from : Queues → ℕ → Option (List ℕ) → Bool → ℕ → Option (List ℕ) × Queues
read_from a i none b n = (none, a)
read_from a i (some q) true n = (none, a)
read_from a i (some q) false n = (some (take n q), update a i (some (drop n q)))

abbrev pub waiting_in : Option (List ℕ) → ℕ
waiting_in none = 0
waiting_in (some q) = length q

unfoldable pub pipe_create : Queues → Option (ℕ × ℤ × ℤ) × Queues
unfolding at_slot
pipe_create a =
    at_slot (first_none a max_pipes 0) (none, a)
      (λ i. (some (i, pos (base_fd + i * 2), pos (base_fd + i * 2 + 1)), update a i (some [])))

unfoldable pub pipe_write : Queues → ℤ → List ℕ → Option ℕ × Queues
unfolding at_slot
pipe_write a fd bs = at_slot (fd_to_pipe fd) (none, a) (λ i. write_to a i (a i) (is_write fd) bs)

unfoldable pub pipe_read : Queues → ℤ → ℕ → Option (List ℕ) × Queues
unfolding at_slot
pipe_read a fd n = at_slot (fd_to_pipe fd) (none, a) (λ i. read_from a i (a i) (is_write fd) n)

-- The first close, of either end, releases the pipe. In ipc.h it is the second one that does.
unfoldable pub pipe_close : Queues → ℤ → Queues
unfolding at_slot
pipe_close a fd = at_slot (fd_to_pipe fd) a (λ i. update a i none)

unfoldable pub pipe_available : Queues → ℤ → ℕ
unfolding at_slot
pipe_available a fd = at_slot (fd_to_pipe fd) 0 (λ i. waiting_in (a i))

-- A call of a client, and what it sees of it.
pub data Call : Type 0 where
  create : ℕ → ℕ → Call
  write : ℤ → List ℕ → Call
  read : ℤ → ℕ → Call
  close : ℤ → Call
  available : ℤ → Call

pub data Reply : Type 0 where
  created : Option (ℕ × ℤ × ℤ) → Reply
  wrote : Option ℕ → Reply
  got : Option (List ℕ) → Reply
  closed : Reply
  waiting : ℕ → Reply

unfoldable pub serve : Queues → Call → Reply × Queues
serve a (create r w) = let (o, a') = pipe_create a in (created o, a')
serve a (write fd bs) = let (o, a') = pipe_write a fd bs in (wrote o, a')
serve a (read fd n) = let (o, a') = pipe_read a fd n in (got o, a')
serve a (close fd) = (closed, pipe_close a fd)
serve a (available fd) = (waiting (pipe_available a fd), a)

unfoldable pub pipe_run : Queues → List Call → List Reply
unfolding serve
pipe_run a [] = []
pipe_run a (c ∷ cs) = let (r, a') = serve a c in r ∷ pipe_run a' cs
