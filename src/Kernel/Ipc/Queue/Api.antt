-- ===== src/Kernel/Ipc/Queue/Api.antt =====
-- The message queues of kernel/ipc.c against their specification.
use mathlib.Core.Path.{fun_ext}
use mathlib.Core.Option
use oxalyn.Base.{
  ℕ, zero, suc, ◌+◌, ◌≡◌, refl, sym, ap, ◌∙◌, subst, Bool, true, false, not, ◌&&◌, List, [], ◌∷◌,
  Option, none, some, if◌then◌else◌, ltb, update, length, take, inl, inr, Bool-cases, arith, ◌==◌,
  cons-head, cons-tail,
}
use oxalyn.Base.Int.{ℤ}
use oxalyn.Kernel.Ipc.Slot.{at_slot, at_slot-rel}
use oxalyn.Kernel.Ipc.Queue.{
  Message, Queue, in_range, first_unused, enqueue, dequeue, reset, mq_create, mq_send, mq_recv,
  mq_count, mq_destroy, max_queues, max_msgs, max_size,
}
use oxalyn.Kernel.Ipc.Queue.Fifo.{
  view, contents, IsValid, length-contents, enqueue_lem, dequeue_lem, reset-IsValid,
  destroyed-IsValid, enqueue-used, dequeue-used, length-view,
}
use oxalyn.Kernel.Ipc.Queue.Spec
use oxalyn.Kernel.Ipc.Queue.Spec.{
  Mail, Queues, first_none, Call, create, send, recv, count, destroy, Reply, created, sent,
  received, counted, destroyed,
}

abbrev pub list_of : Queue → Option (List Mail)
list_of q = if q.used then some (contents q) else none

-- What the specification sees of the table.
abbrev pub abs : (ℕ → Queue) → Queues
abs t i = list_of (t i)

abbrev pub AllValid : (ℕ → Queue) → Type 0
AllValid t = (i : ℕ) → IsValid (t i)

AllValid-update :
    (t : ℕ → Queue) (i : ℕ) (q : Queue) → AllValid t → IsValid q → AllValid (update t i q)
unfolding update
AllValid-update t i q v w j = elim (Bool-cases (j == i)) [ inl e ↦ rw e w | inr e ↦ rw e (v j) ]

abs-update : (t : ℕ → Queue) (i : ℕ) (q : Queue) → abs (update t i q) ≡ update (abs t) i (list_of q)
unfolding update
abs-update t i q =
    fun_ext (λ j. elim (Bool-cases (j == i)) [ inl e ↦ rw e refl | inr e ↦ rw e refl ])

first_unused-abs : (t : ℕ → Queue) (left i : ℕ) → first_unused t left i ≡ first_none (abs t) left i
unfolding first_unused
first_unused-abs t zero i = refl
first_unused-abs t (suc left) i = elim (Bool-cases (t i).used) [
  | inl e ↦ rw e (first_unused-abs t left (i + 1))
  | inr e ↦ rw e refl
]

-- The same answer, and a table in which the specification sees its own next state.
abbrev pub Rel {ℓ} : {A : Type ℓ} → A × (ℕ → Queue) → A × Queues → Type ℓ
Rel (x, t) (y, a) = (x ≡ y) × (abs t ≡ a) × AllValid t

put-Rel {ℓ} :
    {A : Type ℓ} (x y : A) (t : ℕ → Queue) (i : ℕ) (q : Queue) (l : Option (List Mail))
    → x ≡ y
    → AllValid t
    → IsValid q
    → list_of q ≡ l
    → Rel (x, update t i q) (y, update (abs t) i l)
put-Rel x y t i q l e v w k =
    (e, abs-update t i q ∙ ap (update (abs t) i) k, AllValid-update t i q v w)

create-Rel :
    (t : ℕ → Queue) (name : ℕ → ℕ) → AllValid t → Rel (mq_create t name) (Spec.mq_create (abs t))
unfolding mq_create Spec.mq_create reset
create-Rel t name v =
    subst
      (λ o.
        Rel (mq_create t name)
          (at_slot o (none, abs t) (λ i. (some i, update (abs t) i (some [])))))
      (first_unused-abs t max_queues 0)
      (at_slot-rel Rel (first_unused t max_queues 0) (refl, refl, v)
        (λ i. put-Rel _ _ t i (reset (t i) name) (some []) refl v (reset-IsValid (t i) name) refl))

send_to-Rel :
    (t : ℕ → Queue) (i : ℕ) (u : Bool) (sender : ℕ) (bs : List ℕ)
    → AllValid t
    → (t i).used ≡ u
    → Rel
        (if u && ltb (t i).count max_msgs
          then (true, update t i (enqueue (t i) sender bs))
          else (false, t))
        (Spec.send_to
          (abs t)
          i
          (if u then some (contents (t i)) else none)
          (sender, take max_size bs))
send_to-Rel t i false sender bs v e = (refl, refl, v)
send_to-Rel t i true sender bs v e = elim (Bool-cases (ltb (t i).count max_msgs)) [
  | inr full ↦ rw (length-contents (t i), full) (refl, refl, v)
  | inl space ↦
      let (more, ok) = enqueue_lem (t i) sender bs (v i) e (ground arith) in
      rw (length-contents (t i), space)
        (put-Rel true true t i (enqueue (t i) sender bs) _ refl v ok
          (rw (enqueue-used (t i) sender bs ∙ e) (ap some more)))
]

send-Rel :
    (t : ℕ → Queue) (mqid : ℤ) (sender : ℕ) (bs : List ℕ)
    → AllValid t
    → Rel (mq_send t mqid sender bs) (Spec.mq_send (abs t) mqid sender bs)
unfolding mq_send Spec.mq_send
send-Rel t mqid sender bs v =
    at_slot-rel Rel (in_range mqid) (refl, refl, v)
      (λ i. send_to-Rel t i (t i).used sender bs v refl)

-- A client reads the sender and the text of the message that mq_recv writes out.
abbrev pub seen : Option ℕ × Option Message → Reply
seen (o, m) = received o (Option.map view m)

abbrev RelSeen :
    (Option ℕ × Option Message) × (ℕ → Queue) → (Option ℕ × Option Mail) × Queues → Type 0
RelSeen (x, t) (y, a) = (seen x ≡ received y.0 y.1) × (abs t ≡ a) × AllValid t

recv_used :
    (t : ℕ → Queue) (i : ℕ) (l : List Mail)
    → AllValid t
    → (t i).used ≡ true
    → contents (t i) ≡ l
    → RelSeen
        (let m = (t i).msgs (t i).tail in
          if not ((t i).count == 0)
          then ((some m.len, some m), update t i (dequeue (t i)))
          else ((some 0, none), t))
        (Spec.recv_from (abs t) i (some l))
recv_used t i [] v u e =
    let none_left : ((t i).count == 0) ≡ true =
      ground (arith, length-contents (t i), ap length e) in
    rw none_left (refl, refl, v)
recv_used t i (m ∷ q) v u e =
    let some_left : ((t i).count == 0) ≡ false =
      ground (arith, length-contents (t i), ap length e) in
    let (parts, ok) = dequeue_lem (t i) (v i) u (ground arith) in
    let first : view ((t i).msgs (t i).tail) ≡ m = cons-head (sym parts ∙ e) in
    let rest : contents (dequeue (t i)) ≡ q = cons-tail (sym parts ∙ e) in
    let msg = (t i).msgs (t i).tail in
    let answer : seen (some msg.len, some msg) ≡ received (some (length m.1)) (some m) =
      ap (λ n. received (some n) (some (view msg))) (sym (length-view msg))
      ∙ ap (λ x. received (some (length x.1)) (some x)) first in
    rw some_left (
      put-Rel _ _ t i (dequeue (t i)) (some q) answer v ok
        (rw (dequeue-used (t i) ∙ u) (ap some rest)))

recv_from-Rel :
    (t : ℕ → Queue) (i : ℕ) (u : Bool)
    → AllValid t
    → (t i).used ≡ u
    → RelSeen
        (let m = (t i).msgs (t i).tail in
          if u && not ((t i).count == 0)
          then ((some m.len, some m), update t i (dequeue (t i)))
          else ((some 0, none), t))
        (Spec.recv_from (abs t) i (if u then some (contents (t i)) else none))
recv_from-Rel t i false v e = (refl, refl, v)
recv_from-Rel t i true v e = recv_used t i (contents (t i)) v e refl

recv-Rel :
    (t : ℕ → Queue) (mqid : ℤ) → AllValid t → RelSeen (mq_recv t mqid) (Spec.mq_recv (abs t) mqid)
unfolding mq_recv Spec.mq_recv
recv-Rel t mqid v =
    at_slot-rel RelSeen (in_range mqid) (refl, refl, v) (λ i. recv_from-Rel t i (t i).used v refl)

destroy-Rel :
    (t : ℕ → Queue) (mqid : ℤ)
    → AllValid t
    → (abs (mq_destroy t mqid) ≡ Spec.mq_destroy (abs t) mqid) × AllValid (mq_destroy t mqid)
unfolding mq_destroy Spec.mq_destroy
destroy-Rel t mqid v =
    at_slot-rel (λ t' a. (abs t' ≡ a) × AllValid t') (in_range mqid) (refl, v)
      (λ i.
        let q = record (t i) { used = false; count = 0 } in
        let unused : IsValid q = destroyed-IsValid (t i) (v i) in
        (abs-update t i q, AllValid-update t i q v unused))

count-eq : (t : ℕ → Queue) (mqid : ℤ) → AllValid t → mq_count t mqid ≡ Spec.mq_count (abs t) mqid
unfolding mq_count Spec.mq_count
count-eq t mqid v =
    at_slot-rel (λ n m. n ≡ m) (in_range mqid) refl (λ i. count_of (t i) (t i).used (v i) refl)
  where
    count_of :
        (q : Queue) (u : Bool)
        → IsValid q
        → q.used ≡ u
        → q.count ≡ Spec.waiting_in (if u then some (contents q) else none)
    count_of q true w e = sym (length-contents q)
    count_of q false w e = w.empty_unless_used e

-- A client's call of the C functions.
unfoldable pub serve : (ℕ → Queue) → Call → Reply × (ℕ → Queue)
serve t (create name) = let (o, t') = mq_create t name in (created o, t')
serve t (send id sender bs) = let (o, t') = mq_send t id sender bs in (sent o, t')
serve t (recv id) = let (o, t') = mq_recv t id in (seen o, t')
serve t (count id) = (counted (mq_count t id), t)
serve t (destroy id) = (destroyed, mq_destroy t id)

unfoldable pub mq_run : (ℕ → Queue) → List Call → List Reply
unfolding serve
mq_run t [] = []
mq_run t (c ∷ cs) = let (r, t') = serve t c in r ∷ mq_run t' cs

serve-Rel : (t : ℕ → Queue) (c : Call) → AllValid t → Rel (serve t c) (Spec.serve (abs t) c)
unfolding serve Spec.serve
serve-Rel t (create name) v = let (e, k, w) = create-Rel t name v in (ap created e, k, w)
serve-Rel t (send id sender bs) v = let (e, k, w) = send-Rel t id sender bs v in (ap sent e, k, w)
serve-Rel t (recv id) v = recv-Rel t id v
serve-Rel t (count id) v = (ap counted (count-eq t id v), refl, v)
serve-Rel t (destroy id) v = let (k, w) = destroy-Rel t id v in (refl, k, w)

-- Whatever calls the clients of the message queues make, in any order and with any numbers, they
-- see the answers of the specification: messages in the order sent, each with its sender and the
-- first 64 bytes of its text, none lost while fewer than 16 wait. Every queue starts well formed.
pub mq_run-refines :
    (t : ℕ → Queue) (cs : List Call) → AllValid t → mq_run t cs ≡ Spec.mq_run (abs t) cs
unfolding mq_run Spec.mq_run
mq_run-refines t [] v = refl
mq_run-refines t (c ∷ cs) v =
    let (e, k, w) = serve-Rel t c v in
    let (r, t') = serve t c in
    ap (λ x. x ∷ mq_run t' cs) e
    ∙ ap (λ l. (Spec.serve (abs t) c).0 ∷ l) (mq_run-refines t' cs w ∙ ap (λ a. Spec.mq_run a cs) k)
