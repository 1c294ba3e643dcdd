-- ===== src/Kernel/Ipc/Queue/Spec.antt =====
-- What ipc.h promises of the message queues: MAX_QUEUES lists of at most 16 messages, in use or not.
-- A message is its sender with its text.
use oxalyn.Base.{
  ℕ, zero, suc, ◌+◌, Bool, true, false, List, [], ◌∷◌, ◌++◌, Option, none, some, if◌then◌else◌, ltb,
  update, length, take,
}
use oxalyn.Base.Int.{ℤ}
use oxalyn.Kernel.Ipc.Slot.{at_slot}
use oxalyn.Kernel.Ipc.Queue.{in_range, max_queues, max_msgs, max_size}

abbrev pub Mail : Type 0
Mail = ℕ × List ℕ

abbrev pub Queues : Type 0
Queues = ℕ → Option (List Mail)

abbrev is_some : Option (List Mail) → Bool
is_some none = false
is_some (some q) = true

abbrev pub first_none : Queues → ℕ → ℕ → Option ℕ
first_none a zero i = none
first_none a (suc left) i =
    let rest = first_none a left (i + 1) in if is_some (a i) then rest else some i

abbrev pub send_to : Queues → ℕ → Option (List Mail) → Mail → Bool × Queues
send_to a i none m = (false, a)
send_to a i (some q) m =
    if ltb (length q) max_msgs then (true, update a i (some (q ++ (m ∷ [])))) else (false, a)

-- The result is -1, 0, or the length of the message received.
abbrev pub recv_from : Queues → ℕ → Option (List Mail) → (Option ℕ × Option Mail) × Queues
recv_from a i none = ((some 0, none), a)
recv_from a i (some []) = ((some 0, none), a)
recv_from a i (some (m ∷ q)) = ((some (length m.1), some m), update a i (some q))

abbrev pub waiting_in : Option (List Mail) → ℕ
waiting_in none = 0
waiting_in (some q) = length q

unfoldable pub mq_create : Queues → Option ℕ × Queues
unfolding at_slot
mq_create a = at_slot (first_none a max_queues 0) (none, a) (λ i. (some i, update a i (some [])))

unfoldable pub mq_send : Queues → ℤ → ℕ → List ℕ → Bool × Queues
unfolding at_slot
mq_send a mqid sender bs =
    at_slot (in_range mqid) (false, a) (λ i. send_to a i (a i) (sender, take max_size bs))

unfoldable pub mq_recv : Queues → ℤ → (Option ℕ × Option Mail) × Queues
unfolding at_slot
mq_recv a mqid = at_slot (in_range mqid) ((none, none), a) (λ i. recv_from a i (a i))

unfoldable pub mq_count : Queues → ℤ → ℕ
unfolding at_slot
mq_count a mqid = at_slot (in_range mqid) 0 (λ i. waiting_in (a i))

unfoldable pub mq_destroy : Queues → ℤ → Queues
unfolding at_slot
mq_destroy a mqid = at_slot (in_range mqid) a (λ i. update a i none)

-- A call of a client, and what it sees of it.
pub data Call : Type 0 where
  create : (ℕ → ℕ) → Call
  send : ℤ → ℕ → List ℕ → Call
  recv : ℤ → Call
  count : ℤ → Call
  destroy : ℤ → Call

pub data Reply : Type 0 where
  created : Option ℕ → Reply
  sent : Bool → Reply
  received : Option ℕ → Option Mail → Reply
  counted : ℕ → Reply
  destroyed : Reply

unfoldable pub serve : Queues → Call → Reply × Queues
serve a (create name) = let (o, a') = mq_create a in (created o, a')
serve a (send id sender bs) = let (o, a') = mq_send a id sender bs in (sent o, a')
serve a (recv id) = let (o, a') = mq_recv a id in (received o.0 o.1, a')
serve a (count id) = (counted (mq_count a id), a)
serve a (destroy id) = (destroyed, mq_destroy a id)

unfoldable pub mq_run : Queues → List Call → List Reply
unfolding serve
mq_run a [] = []
mq_run a (c ∷ cs) = let (r, a') = serve a c in r ∷ mq_run a' cs
