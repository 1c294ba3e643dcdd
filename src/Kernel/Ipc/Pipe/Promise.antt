-- ===== src/Kernel/Ipc/Pipe/Promise.antt =====
-- What ipc.h promises of the pipes: like the queues of Spec, but a pipe has two ends, each open or
-- closed, and its buffer is released when both are closed.
use oxalyn.Base.{
  ℕ, zero, suc, ◌+◌, ◌-◌, ◌*◌, ◌≡◌, Bool, true, false, not, List, [], ◌∷◌, ◌++◌, Option, none, some,
  if◌then◌else◌, update, length, min, take, drop,
}
use oxalyn.Base.Int.{ℤ, pos}
use oxalyn.Kernel.Ipc.Slot.{at_slot}
use oxalyn.Kernel.Ipc.Pipe.{fd_to_pipe, is_write, max_pipes, base_fd, buf_size}
use oxalyn.Kernel.Ipc.Pipe.Spec.{
  Call, create, write, read, close, available, Reply, created, wrote, got, closed, waiting,
}

pub record Channel : Type 0 where
  pub queue : List ℕ
  pub reader_open : Bool
  pub writer_open : Bool

abbrev pub Channels : Type 0
Channels = ℕ → Option Channel

abbrev pub both_open : List ℕ → Channel
both_open q = record { queue = q; reader_open = true; writer_open = true }

abbrev pub is_some : Option Channel → Bool
is_some none = false
is_some (some ch) = true

abbrev pub first_none : Channels → ℕ → ℕ → Option ℕ
first_none a zero i = none
first_none a (suc left) i =
    let rest = first_none a left (i + 1) in if is_some (a i) then rest else some i

abbrev pub write_to : Channels → ℕ → Option Channel → Bool → List ℕ → Option ℕ × Channels
write_to a i none b bs = (none, a)
write_to a i (some ch) false bs = (none, a)
write_to a i (some ch) true bs =
    let n = min (length bs) (buf_size - 1 - length ch.queue) in
    if ch.writer_open
    then (some n, update a i (some (record ch { queue = ch.queue ++ take n bs })))
    else (none, a)

abbrev pub read_from : Channels → ℕ → Option Channel → Bool → ℕ → Option (List ℕ) × Channels
read_from a i none b n = (none, a)
read_from a i (some ch) true n = (none, a)
read_from a i (some ch) false n =
    if ch.reader_open
    then (some (take n ch.queue), update a i (some (record ch { queue = drop n ch.queue })))
    else (none, a)

-- An end is closed; with none left open the buffer is released.
abbrev pub close_end : Bool → Option Channel → Option Channel
close_end b none = none
close_end true (some ch) = if ch.reader_open then some (record ch { writer_open = false }) else none
close_end false (some ch) =
    if ch.writer_open then some (record ch { reader_open = false }) else none

abbrev pub waiting_in : Option Channel → ℕ
waiting_in none = 0
waiting_in (some ch) = length ch.queue

unfoldable pub pipe_create : Channels → Option (ℕ × ℤ × ℤ) × Channels
unfolding at_slot
pipe_create a =
    at_slot (first_none a max_pipes 0) (none, a)
      (λ i. (
        some (i, pos (base_fd + i * 2), pos (base_fd + i * 2 + 1)),
        update a i (some (both_open [])),
      ))

unfoldable pub pipe_write : Channels → ℤ → List ℕ → Option ℕ × Channels
unfolding at_slot
pipe_write a fd bs = at_slot (fd_to_pipe fd) (none, a) (λ i. write_to a i (a i) (is_write fd) bs)

unfoldable pub pipe_read : Channels → ℤ → ℕ → Option (List ℕ) × Channels
unfolding at_slot
pipe_read a fd n = at_slot (fd_to_pipe fd) (none, a) (λ i. read_from a i (a i) (is_write fd) n)

unfoldable pub pipe_close : Channels → ℤ → Channels
unfolding at_slot
pipe_close a fd = at_slot (fd_to_pipe fd) a (λ i. update a i (close_end (is_write fd) (a i)))

unfoldable pub pipe_available : Channels → ℤ → ℕ
unfolding at_slot
pipe_available a fd = at_slot (fd_to_pipe fd) 0 (λ i. waiting_in (a i))

unfoldable pub serve : Channels → Call → Reply × Channels
serve a (create r w) = let (o, a') = pipe_create a in (created o, a')
serve a (write fd bs) = let (o, a') = pipe_write a fd bs in (wrote o, a')
serve a (read fd n) = let (o, a') = pipe_read a fd n in (got o, a')
serve a (close fd) = (closed, pipe_close a fd)
serve a (available fd) = (waiting (pipe_available a fd), a)

unfoldable pub pipe_run : Channels → List Call → List Reply
unfolding serve
pipe_run a [] = []
pipe_run a (c ∷ cs) = let (r, a') = serve a c in r ∷ pipe_run a' cs

abbrev pub is_close : Call → Bool
is_close (close fd) = true
is_close _ = false

-- A run in which the two ends of a pipe are always closed one right after the other.
pub data ClosesBoth : List Call → Type 0 where
  no_more : ClosesBoth []
  other : {cs : List Call} (c : Call) → is_close c ≡ false → ClosesBoth cs → ClosesBoth (c ∷ cs)
  both_ends :
      {cs : List Call} (fd fd' : ℤ)
      → fd_to_pipe fd ≡ fd_to_pipe fd'
      → is_write fd ≡ not (is_write fd')
      → ClosesBoth cs
      → ClosesBoth (close fd ∷ close fd' ∷ cs)
