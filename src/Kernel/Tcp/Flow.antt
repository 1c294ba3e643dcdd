-- ===== src/Kernel/Tcp/Flow.antt =====
-- The bytes of a connection against the peer's stream.
use oxalyn.Base.{
  ℕ, zero, suc, ◌+◌, ◌-◌, ◌≡◌, ◌≤◌, ◌<◌, min, refl, sym, ap, ◌∙◌, subst, Bool, true, false, ◌&&◌,
  Option, none, some, List, [], ◌∷◌, ◌++◌, inl, inr, if◌then◌else◌, Bool-cases, arith, length, take,
  get_or, u32, ltb, has, length-append, length-take,
}
use mathlib.Core.List.{append_assoc}
use oxalyn.Kernel.Net.{Net}
use oxalyn.Kernel.Tcp.{
  TcpConn, TcpState, closed, syn_sent, syn_recv, established, fin_wait1, fin_wait2, close_wait,
  last_ack, time_wait, tcp_buffer_size, ack, fin,
}
use oxalyn.Kernel.Tcp.Stream.{is_established}
use oxalyn.Kernel.Tcp.Poll.{Segment, is_peer, acked, received, in_order, take_data, take_fin, react}

-- The `n` bytes of a peer's stream from the sequence number `a` on; sequence numbers wrap around.
unfoldable pub span : (ℕ → ℕ) → ℕ → ℕ → List ℕ
span f a zero = []
span f a (suc n) = f (u32 a) ∷ span f (suc a) n

span_congr : (f : ℕ → ℕ) (a b n : ℕ) → u32 a ≡ u32 b → span f a n ≡ span f b n
unfolding span
span_congr f a b zero h = refl
span_congr f a b (suc n) h = rw (h, span_congr f (suc a) (suc b) n (omega arith)) refl

span-add : (f : ℕ → ℕ) (a m n : ℕ) → span f a (m + n) ≡ span f a m ++ span f (a + m) n
unfolding span
span-add f a zero n =
    let z : 0 + n ≡ n = omega arith in let w : a + 0 ≡ a = omega arith in rw (z, w) refl
span-add f a (suc m) n =
    let z : suc m + n ≡ suc (m + n) = omega arith in
    let w : suc a + m ≡ a + suc m = omega arith in
    rw z (
      ap (λ r. f (u32 a) ∷ r) (span-add f (suc a) m n ∙ ap (λ x. span f (suc a) m ++ span f x n) w))

acked-state : (c : TcpConn) (s : Segment) → (acked c s).state ≡ c.state
unfolding acked
acked-state c s = ground arith

-- The bytes of a segment are the peer's bytes at its sequence numbers.
abbrev pub Carries : (ℕ → ℕ) → ℕ → List ℕ → Type 0
Carries f a bytes = (j : ℕ) → j < length bytes → get_or bytes j 0 ≡ f (u32 (a + j))

take-span :
    (f : ℕ → ℕ) (a n : ℕ) (bytes : List ℕ)
    → Carries f a bytes
    → n ≤ length bytes
    → take n bytes ≡ span f a n
unfolding span
take-span f a zero bytes h l = refl
take-span f a (suc n) [] h l = elim l [ ]
take-span f a (suc n) (x ∷ xs) h l =
    let first : x ≡ f (u32 (a + 0)) = h 0 (omega arith) in
    let z : a + 0 ≡ a = omega arith in
    let rest : Carries f (suc a) xs =
      λ j k. h (suc j) (omega arith) ∙ ap (λ y. f (u32 y)) (omega arith) in
    rw (take-span f (suc a) n xs rest (omega arith))
      (ap (λ y. y ∷ span f (suc a) n) (first ∙ ap (λ y. f (u32 y)) z))

abbrev pub is_opening : TcpState → Bool
is_opening syn_sent = true
is_opening syn_recv = true
is_opening _ = false

abbrev pub SamePeer : TcpConn → TcpConn → Type 0
SamePeer c d =
    (c.remote_ip ≡ d.remote_ip) × (c.remote_port ≡ d.remote_port) × (c.local_port ≡ d.local_port)

-- What comes from the peer of the connection is its stream.
abbrev pub Honest : (ℕ → ℕ) → TcpConn → Segment → Type 0
Honest f origin s = is_peer origin s ≡ true → Carries f s.seq s.bytes

module _ (f : ℕ → ℕ) (a : ℕ) (before : List ℕ) (origin : TcpConn) where
  -- The bytes read, `out`, and those in the buffer are `before` and the peer's next ones from `a` on.
  pub record Flow (out : List ℕ) (c : TcpConn) : Type 0 where
    pub count : ℕ
    pub flow : out ++ c.rcv_buf ≡ before ++ span f a count
    pub room : length c.rcv_buf ≤ tcp_buffer_size
    pub place : is_established c.state ≡ true → c.rcv_nxt ≡ u32 (a + count)
    pub peer : SamePeer c origin
    pub past : is_opening c.state ≡ false

  -- The fields that the stream depends on are the same.
  pub stays :
      (out : List ℕ) (c d : TcpConn)
      → d.rcv_buf ≡ c.rcv_buf
      → d.rcv_nxt ≡ c.rcv_nxt
      → d.state ≡ c.state
      → SamePeer d c
      → Flow out c
      → Flow out d
  stays out c d b n s p v = record {
    count = v.count;
    flow = rw b v.flow;
    room = rw b v.room;
    place = rw (s, n) v.place;
    peer = (p.0 ∙ v.peer.0, p.1 ∙ v.peer.1, p.2 ∙ v.peer.2);
    past = rw s v.past;
  }

  -- The connection has left the state ESTABLISHED for good.
  pub leaves :
      (out : List ℕ) (c d : TcpConn)
      → d.rcv_buf ≡ c.rcv_buf
      → is_established d.state ≡ false
      → is_opening d.state ≡ false
      → SamePeer d c
      → Flow out c
      → Flow out d
  leaves out c d b e o p v = record {
    count = v.count;
    flow = rw b v.flow;
    room = rw b v.room;
    place = λ q. absurd (ground arith);
    peer = (p.0 ∙ v.peer.0, p.1 ∙ v.peer.1, p.2 ∙ v.peer.2);
    past = o;
  }

  acked-Flow : (out : List ℕ) (c : TcpConn) (s : Segment) → Flow out c → Flow out (acked c s)
  unfolding acked
  acked-Flow out c s v = elim (Bool-cases (has s.flags ack && ltb c.snd_una s.ack_num)) [
    | inl e ↦ simp e (stays out c _ refl refl refl (refl, refl, refl) v)
    | inr e ↦ simp e v
  ]

  received-Flow :
      (out : List ℕ) (c : TcpConn) (s : Segment)
      → is_established c.state ≡ true
      → s.seq ≡ c.rcv_nxt
      → Carries f s.seq s.bytes
      → Flow out c
      → Flow out (received c s)
  unfolding received
  received-Flow out c s est next carries v =
      let copy = min (length s.bytes) (tcp_buffer_size - length c.rcv_buf) in
      let at_a : s.seq ≡ u32 (a + v.count) = next ∙ v.place est in
      let bytes : take copy s.bytes ≡ span f (a + v.count) copy =
        take-span f s.seq copy s.bytes carries (omega arith)
        ∙ span_congr f s.seq (a + v.count) copy (omega arith) in
      let here = v.place est in
      let room = v.room in
      record {
        count = v.count + copy;
        flow =
            sym (append_assoc out c.rcv_buf (take copy s.bytes))
            ∙ ap (λ l. l ++ take copy s.bytes) v.flow
            ∙ append_assoc before (span f a v.count) (take copy s.bytes)
            ∙ ap (λ l. before ++ l)
                (ap (λ l. span f a v.count ++ l) bytes ∙ sym (span-add f a v.count copy));
        room = omega (arith, length-append c.rcv_buf (take copy s.bytes), length-take copy s.bytes);
        place = λ q. omega arith;
        peer = v.peer;
        past = v.past;
      }

  take_data-Flow :
      (out : List ℕ) (n : Net) (c : TcpConn) (s : Segment)
      → is_established c.state ≡ true
      → Carries f s.seq s.bytes
      → Flow out c
      → Flow out (take_data n c s).1
  unfolding take_data
  take_data-Flow out n c s est carries v = elim (Bool-cases (in_order c s)) [
    | inl e ↦ rw e (received-Flow out c s est (ground arith) carries v)
    | inr e ↦ rw e v
  ]

  take_fin-Flow :
      (out : List ℕ) (n : Net) (c : TcpConn) (s : Segment)
      → Flow out c
      → Flow out (take_fin n c s).1
  unfolding take_fin
  take_fin-Flow out n c s v = elim (Bool-cases (has s.flags fin)) [
    | inl e ↦ rw e (leaves out c _ refl refl refl (refl, refl, refl) v)
    | inr e ↦ rw e v
  ]

  -- `P` holds of the connection in the answer, if there is one.
  abbrev pub Answers : (TcpConn → Type 0) → Option (Net × ℕ × TcpConn) → Type 0
  Answers P none = Unit {0}
  Answers P (some r) = P r.2

  answer_if :
      (P : TcpConn → Type 0) (b : Bool) (r : Net × ℕ × TcpConn)
      → (b ≡ true → P r.2)
      → Answers P (if b then some r else none)
  answer_if P true r h = h refl
  answer_if P false r h = tt

  pub react-Flow :
      (out : List ℕ) (st : TcpState) (n : Net) (seed : ℕ) (c : TcpConn) (s : Segment)
      → c.state ≡ st
      → Honest f origin s
      → Flow out c
      → Answers (Flow out) (react st n seed c s)
  unfolding react
  react-Flow out closed n seed c s e h v = tt
  react-Flow out syn_sent n seed c s e h v =
      let clash : is_opening syn_sent ≡ false = subst (λ x. is_opening x ≡ false) e v.past in
      absurd (cc)
  react-Flow out syn_recv n seed c s e h v =
      let clash : is_opening syn_recv ≡ false = subst (λ x. is_opening x ≡ false) e v.past in
      absurd (cc)
  react-Flow out established n seed c s e h v = answer_if (Flow out) (is_peer c s) _ (λ q.
      let ours : is_peer origin s ≡ true = rw (← v.peer.0, ← v.peer.1, ← v.peer.2) q in
      let est : is_established (acked c s).state ≡ true = rw (acked-state c s, e) refl in
      take_fin-Flow out (take_data n (acked c s) s).0 (take_data n (acked c s) s).1 s
        (take_data-Flow out n (acked c s) s est (h ours) (acked-Flow out c s v)))
  react-Flow out fin_wait1 n seed c s e h v = answer_if (Flow out) _ _ (λ q.
      elim (Bool-cases (has s.flags fin)) [
        | inl w ↦ rw w (leaves out c _ refl refl refl (refl, refl, refl) v)
        | inr w ↦ rw w (leaves out c _ refl refl refl (refl, refl, refl) v)
      ])
  react-Flow out fin_wait2 n seed c s e h v = tt
  react-Flow out close_wait n seed c s e h v = tt
  react-Flow out last_ack n seed c s e h v =
      answer_if (Flow out) _ _ (λ q. leaves out c _ refl refl refl (refl, refl, refl) v)
  react-Flow out time_wait n seed c s e h v = tt
