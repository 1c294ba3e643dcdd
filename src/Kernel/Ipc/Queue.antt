-- ===== src/Kernel/Ipc/Queue.antt =====
-- The message queues of kernel/ipc.c. The table of MAX_QUEUES queues is a function of the index, as
-- are the messages of a queue and the bytes of a message. A result of -1 is `none`. The data of a
-- call is the list of its `len` bytes: a negative `len` is left out, because the C code then copies
-- without bound. mq_open, the search for a queue by its name, is left out.
pub mod Fifo
pub mod Spec
pub mod Api
use oxalyn.Base.{
  ℕ, zero, suc, ◌+◌, ◌-◌, ◌%◌, Bool, true, false, not, ◌&&◌, ◌||◌, List, [], ◌∷◌, Option, none,
  some, ltb, leb, ◌==◌, if◌then◌else◌, update, length, take,
}
use oxalyn.Base.Int.{ℤ, pos, negsuc}
use oxalyn.Kernel.Kstring.{kmemcpy, kstrncpy}
use oxalyn.Kernel.Ipc.Slot.{at_slot}

abbrev pub max_queues : ℕ
max_queues = 8

abbrev pub max_msgs : ℕ
max_msgs = 16

abbrev pub max_size : ℕ
max_size = 64

pub record Message : Type 0 where
  pub data_bytes : ℕ → ℕ
  pub len : ℕ
  pub sender_pid : ℕ

pub record Queue : Type 0 where
  pub name : ℕ → ℕ
  pub msgs : ℕ → Message
  pub head : ℕ
  pub tail : ℕ
  pub count : ℕ
  pub used : Bool

-- The queue that a number names, if it is in range.
unfoldable pub in_range : ℤ → Option ℕ
in_range (negsuc n) = none
in_range (pos i) = if leb max_queues i then none else some i

-- A message slot with the `len` bytes of a new message.
unfoldable pub store : Message → ℕ → List ℕ → Message
unfolding kmemcpy
store m sender bs = record m {
  data_bytes = kmemcpy m.data_bytes 0 bs;
  len = length bs;
  sender_pid = sender;
}

-- mq_send on one queue, as it stores the message.
unfoldable pub enqueue : Queue → ℕ → List ℕ → Queue
unfolding store
enqueue q sender bs = record q {
  msgs = update q.msgs q.head (store (q.msgs q.head) sender (take max_size bs));
  head = (q.head + 1) % max_msgs;
  count = q.count + 1;
}

unfoldable pub mq_send : (ℕ → Queue) → ℤ → ℕ → List ℕ → Bool × (ℕ → Queue)
unfolding at_slot enqueue
mq_send queues mqid sender bs =
    at_slot (in_range mqid) (false, queues)
      (λ i.
        let q = queues i in
        if q.used && ltb q.count max_msgs
        then (true, update queues i (enqueue q sender bs))
        else (false, queues))

-- mq_recv on one queue that holds a message.
unfoldable pub dequeue : Queue → Queue
dequeue q = record q { tail = (q.tail + 1) % max_msgs; count = q.count - 1 }

-- The result, and what is written to `out`.
unfoldable pub mq_recv : (ℕ → Queue) → ℤ → (Option ℕ × Option Message) × (ℕ → Queue)
unfolding at_slot dequeue
mq_recv queues mqid =
    at_slot (in_range mqid) ((none, none), queues)
      (λ i.
        let q = queues i in
        let m = q.msgs q.tail in
        if q.used && not (q.count == 0)
        then ((some m.len, some m), update queues i (dequeue q))
        else ((some 0, none), queues))

unfoldable pub mq_count : (ℕ → Queue) → ℤ → ℕ
unfolding at_slot
mq_count queues mqid = at_slot (in_range mqid) 0 (λ i. (queues i).count)

unfoldable pub mq_destroy : (ℕ → Queue) → ℤ → ℕ → Queue
unfolding at_slot
mq_destroy queues mqid =
    at_slot (in_range mqid) queues
      (λ i. update queues i (record (queues i) { used = false; count = 0 }))

-- The first of the `left` queues from `i` on that is not in use.
unfoldable pub first_unused : (ℕ → Queue) → ℕ → ℕ → Option ℕ
first_unused queues zero i = none
first_unused queues (suc left) i =
    let rest = first_unused queues left (i + 1) in if (queues i).used then rest else some i

-- The bytes of a queue from its name on: behind the name stands the data of the first message.
abbrev pub name_size : ℕ
name_size = 16

abbrev queue_bytes : Queue → ℕ → ℕ
queue_bytes q j = if ltb j name_size then q.name j else (q.msgs 0).data_bytes (j - name_size)

-- What mq_create does to the queue it has chosen: kstrncpy reaches one byte behind the name.
unfoldable pub reset : Queue → (ℕ → ℕ) → Queue
unfolding kstrncpy
reset q name =
    let bytes = kstrncpy (queue_bytes q) 0 name 0 name_size in
    let first = record (q.msgs 0) { data_bytes = λ j. bytes (j + name_size) } in
    record q {
      name = bytes;
      msgs = update q.msgs 0 first;
      used = true;
      head = 0;
      tail = 0;
      count = 0;
    }

unfoldable pub mq_create : (ℕ → Queue) → (ℕ → ℕ) → Option ℕ × (ℕ → Queue)
unfolding at_slot first_unused reset
mq_create queues name =
    at_slot (first_unused queues max_queues 0) (none, queues)
      (λ i. (some i, update queues i (reset (queues i) name)))
