-- ===== src/Kernel/Ipc/Pipe.antt =====
-- The pipes of kernel/ipc.c. The table of MAX_PIPES pipes is a function of the index, and so is
-- the buffer of a pipe. A file descriptor is an `int`, -1 as a result is `none`, and the data of
-- a call is the list of the `len` bytes (a negative `len` writes nothing, as [] does).
pub mod Fifo
pub mod Spec
pub mod Promise
pub mod Ends
pub mod Api
use oxalyn.Base.{
  ℕ, zero, suc, ◌+◌, ◌-◌, ◌*◌, ◌/◌, ◌%◌, Bool, true, false, not, ◌&&◌, List, [], ◌∷◌, Option, none,
  some, ltb, ◌==◌, if◌then◌else◌, update, length,
}
use oxalyn.Kernel.Ipc.Slot.{at_slot}
use oxalyn.Base.Int.{ℤ, pos, negsuc}

abbrev pub max_pipes : ℕ
max_pipes = 8

abbrev pub buf_size : ℕ
buf_size = 256

abbrev pub base_fd : ℕ
base_fd = 32

pub record Pipe : Type 0 where
  pub buf : ℕ → ℕ
  pub head : ℕ
  pub tail : ℕ
  pub used : Bool
  pub reader_pid : ℕ
  pub writer_pid : ℕ

abbrev pub Pipes : Type 0
Pipes = ℕ → Pipe

unfoldable pub ipc_init : Pipes → Pipes
ipc_init pipes i = if ltb i max_pipes then record (pipes i) { used = false } else pipes i

-- `FD_TO_PIPE(fd - PIPE_BASE_FD)`, where it is in range.
unfoldable pub fd_to_pipe : ℤ → Option ℕ
fd_to_pipe (negsuc n) = none
fd_to_pipe (pos fd) =
    if ltb fd base_fd
    then none
    else let pid = (fd - base_fd) / 2 in if ltb pid max_pipes then some pid else none

-- The low bit of `fd - PIPE_BASE_FD`, which is that of `fd`.
unfoldable pub is_write : ℤ → Bool
is_write (pos fd) = fd % 2 == 1
is_write (negsuc n) = n % 2 == 0

-- The first of the `left` pipes from `i` on that is not in use.
unfoldable pub first_unused : Pipes → ℕ → ℕ → Option ℕ
first_unused pipes zero i = none
first_unused pipes (suc left) i =
    let rest = first_unused pipes left (i + 1) in if (pipes i).used then rest else some i

abbrev fresh : ℕ → ℕ → Pipe
fresh reader writer = record {
  buf = λ j. 0;
  head = 0;
  tail = 0;
  used = true;
  reader_pid = reader;
  writer_pid = writer;
}

-- The pipe's number with its two descriptors.
unfoldable pub pipe_create : Pipes → ℕ → ℕ → Option (ℕ × ℤ × ℤ) × Pipes
unfolding at_slot first_unused
pipe_create pipes reader writer =
    at_slot (first_unused pipes max_pipes 0) (none, pipes)
      (λ i. (
        some (i, pos (base_fd + i * 2), pos (base_fd + i * 2 + 1)),
        update pipes i (fresh reader writer),
      ))

-- The loop of pipe_write: it ends when the buffer is full.
unfoldable pub write_loop : Pipe → List ℕ → ℕ × Pipe
write_loop p [] = (0, p)
write_loop p (b ∷ bs) =
    let next = (p.head + 1) % buf_size in
    let (written, p') = write_loop (record p { buf = update p.buf p.head b; head = next }) bs in
    if next == p.tail then (0, p) else (suc written, p')

-- The loop of pipe_read, for `maxlen` bytes.
unfoldable pub read_loop : Pipe → ℕ → List ℕ × Pipe
read_loop p zero = ([], p)
read_loop p (suc maxlen) =
    let (bs, p') = read_loop (record p { tail = (p.tail + 1) % buf_size }) maxlen in
    if p.tail == p.head then ([], p) else (p.buf p.tail ∷ bs, p')

unfoldable pub pipe_write : Pipes → ℤ → List ℕ → Option ℕ × Pipes
unfolding at_slot write_loop
pipe_write pipes write_fd bs =
    at_slot (fd_to_pipe write_fd) (none, pipes)
      (λ pid.
        let (written, p) = write_loop (pipes pid) bs in
        if is_write write_fd && (pipes pid).used
        then (some written, update pipes pid p)
        else (none, pipes))

unfoldable pub pipe_read : Pipes → ℤ → ℕ → Option (List ℕ) × Pipes
unfolding at_slot read_loop
pipe_read pipes read_fd maxlen =
    at_slot (fd_to_pipe read_fd) (none, pipes)
      (λ pid.
        let (bs, p) = read_loop (pipes pid) maxlen in
        if not (is_write read_fd) && (pipes pid).used
        then (some bs, update pipes pid p)
        else (none, pipes))

unfoldable pub pipe_close : Pipes → ℤ → Pipes
unfolding at_slot
pipe_close pipes fd =
    at_slot (fd_to_pipe fd) pipes (λ pid. update pipes pid (record (pipes pid) { used = false }))

-- `(head - tail + PIPE_BUF_SIZE) % PIPE_BUF_SIZE`
unfoldable pub fill : Pipe → ℕ
fill p = (p.head + buf_size - p.tail) % buf_size

unfoldable pub pipe_available : Pipes → ℤ → ℕ
unfolding at_slot fill
pipe_available pipes read_fd =
    at_slot (fd_to_pipe read_fd) 0 (λ pid. if (pipes pid).used then fill (pipes pid) else 0)
