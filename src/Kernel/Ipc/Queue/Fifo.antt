-- ===== src/Kernel/Ipc/Queue/Fifo.antt =====
-- One message queue against a list of at most 16 messages.
use oxalyn.Base.{
  ℕ, zero, suc, ◌+◌, ◌-◌, ◌%◌, ◌≤◌, ◌<◌, ◌≡◌, ◌≢◌, refl, sym, ap, ◌∙◌, true, false, List, [], ◌∷◌,
  ◌++◌, length, arith, map, length-map, take, update,
}
use oxalyn.Kernel.Kstring.{kmemcpy}
use oxalyn.Kernel.Ipc.Window.{IsRing, window, length-window, window-push}
use oxalyn.Kernel.Ipc.Queue.{Message, Queue, max_msgs, max_size, store, enqueue, dequeue, reset}

ring : IsRing max_msgs
ring = record {
  shift = λ t k. omega arith;
  apart = λ t k h p q. omega arith;
  below = λ t. omega arith;
  start = λ t h. omega arith;
}

abbrev pub slice : (ℕ → ℕ) → ℕ → ℕ → List ℕ
slice f i zero = []
slice f i (suc n) = f i ∷ slice f (i + 1) n

kmemcpy-below : (f : ℕ → ℕ) (i : ℕ) (bs : List ℕ) (j : ℕ) → j < i → kmemcpy f i bs j ≡ f j
unfolding kmemcpy update
kmemcpy-below f i [] j h = refl
kmemcpy-below f i (b ∷ bs) j h =
    ground (arith, kmemcpy-below (update f i b) (i + 1) bs j (omega arith))

length-slice : (f : ℕ → ℕ) (i n : ℕ) → length (slice f i n) ≡ n
length-slice f i zero = refl
length-slice f i (suc n) = ap suc (length-slice f (i + 1) n)

-- What kmemcpy has copied.
slice-kmemcpy : (f : ℕ → ℕ) (i : ℕ) (bs : List ℕ) → slice (kmemcpy f i bs) i (length bs) ≡ bs
unfolding kmemcpy update
slice-kmemcpy f i [] = refl
slice-kmemcpy f i (b ∷ bs) =
    let first : kmemcpy (update f i b) (i + 1) bs i ≡ b =
      ground (arith, kmemcpy-below (update f i b) (i + 1) bs i (omega arith)) in
    rw (first, slice-kmemcpy (update f i b) (i + 1) bs) refl

-- The sender of a message and its text.
abbrev pub view : Message → ℕ × List ℕ
view m = (m.sender_pid, slice m.data_bytes 0 m.len)

view-store : (m : Message) (sender : ℕ) (bs : List ℕ) → view (store m sender bs) ≡ (sender, bs)
unfolding store
view-store m sender bs = ap (λ l. (sender, l)) (slice-kmemcpy m.data_bytes 0 bs)

abbrev pub contents : Queue → List (ℕ × List ℕ)
contents q = map view (window max_msgs q.msgs q.tail q.count)

pub record IsValid (q : Queue) : Type 0 where
  pub head_behind : q.used ≡ true → q.head ≡ (q.tail + q.count) % max_msgs
  pub tail_in : q.tail < max_msgs
  pub count_in : q.count ≤ max_msgs
  pub empty_unless_used : q.used ≡ false → q.count ≡ 0

pub length-contents : (q : Queue) → length (contents q) ≡ q.count
length-contents q =
    length-map (window max_msgs q.msgs q.tail q.count) view
    ∙ length-window max_msgs q.msgs q.tail q.count

map-snoc {ℓ κ} :
    {A : Type ℓ} {B : Type κ} (f : A → B) (xs : List A) (x : A)
    → map f (xs ++ (x ∷ [])) ≡ map f xs ++ (f x ∷ [])
map-snoc f [] x = refl
map-snoc f (y ∷ ys) x = ap (λ l. f y ∷ l) (map-snoc f ys x)

-- A sent message comes last, cut to 64 bytes.
pub enqueue_lem :
    (q : Queue) (sender : ℕ) (bs : List ℕ)
    → IsValid q
    → q.used ≡ true
    → q.count < max_msgs
    → (contents (enqueue q sender bs) ≡ contents q ++ ((sender, take max_size bs) ∷ []))
      × IsValid (enqueue q sender bs)
unfolding enqueue
enqueue_lem q sender bs v u h =
    let m = store (q.msgs q.head) sender (take max_size bs) in
    let more : q.count + 1 ≡ suc q.count = omega arith in
    (
      rw more (
          ap (map view) (
            window-push max_msgs ring q.msgs q.tail q.count q.head m (sym (v.head_behind u))
              v.tail_in h)
          ∙ map-snoc view (window max_msgs q.msgs q.tail q.count) m
          ∙ ap (λ x. contents q ++ (x ∷ []))
              (view-store (q.msgs q.head) sender (take max_size bs))),
      record {
        head_behind = λ e. omega (arith, v.head_behind u);
        tail_in = v.tail_in;
        count_in = omega arith;
        empty_unless_used = λ e. absurd (ground arith);
      },
    )

-- A received message is the first.
pub dequeue_lem :
    (q : Queue)
    → IsValid q
    → q.used ≡ true
    → q.count ≢ 0
    → (contents q ≡ view (q.msgs q.tail) ∷ contents (dequeue q)) × IsValid (dequeue q)
unfolding dequeue
dequeue_lem q v u h =
    let more : q.count ≡ suc (q.count - 1) = omega arith in
    (
      ap (λ n. map view (window max_msgs q.msgs q.tail n)) more,
      record {
        head_behind = λ e. omega (arith, v.head_behind u);
        tail_in = omega arith;
        count_in = omega (arith, v.count_in);
        empty_unless_used = λ e. absurd (ground arith);
      },
    )

pub reset-IsValid : (q : Queue) (name : ℕ → ℕ) → IsValid (reset q name)
unfolding reset
reset-IsValid q name = record {
  head_behind = λ e. omega arith;
  tail_in = omega arith;
  count_in = omega arith;
  empty_unless_used = λ e. refl;
}

pub enqueue-used : (q : Queue) (sender : ℕ) (bs : List ℕ) → (enqueue q sender bs).used ≡ q.used
unfolding enqueue
enqueue-used q sender bs = refl

pub dequeue-used : (q : Queue) → (dequeue q).used ≡ q.used
unfolding dequeue
dequeue-used q = refl

pub length-view : (m : Message) → length (view m).1 ≡ m.len
length-view m = length-slice m.data_bytes 0 m.len

pub destroyed-IsValid : (q : Queue) → IsValid q → IsValid (record q { used = false; count = 0 })
destroyed-IsValid q v = record {
  head_behind = λ e. absurd (cc);
  tail_in = v.tail_in;
  count_in = omega arith;
  empty_unless_used = λ e. refl;
}
