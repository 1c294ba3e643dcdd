-- ===== src/Kernel/Tcp/Session/Order.antt =====
-- The order of the bytes that a connection delivers.
use oxalyn.Base.{
  ℕ, zero, suc, ◌+◌, ◌^◌, ◌≡◌, ◌≢◌, ◌≤◌, ◌<◌, min, refl, sym, ap, ◌∙◌, subst, Bool, true, false,
  ◌&&◌, Option, none, some, List, [], ◌∷◌, ◌++◌, inl, inr, if◌then◌else◌, update, Bool-cases, arith,
  length, take, drop, ltb, ◌==◌, ==_iff, update_self, update-ne, length-drop, take-append-drop,
}
use mathlib.Core.List.{append_assoc, append-nil}
use oxalyn.Base.Int.{pos, negsuc}
use oxalyn.Kernel.Net.{Net}
use oxalyn.Kernel.Tcp.{
  TcpConn, Tcp, TcpState, established, tcp_buffer_size, tcp_get_conn, tcp_send_segment,
}
use oxalyn.Kernel.Tcp.Stream.{
  is_established, tcp_send, tcp_recv, tcp_close, send_chunks, seg_data_max, send_result, send_at,
  recv_at, close_conn, close_at,
}
use oxalyn.Kernel.Tcp.Poll.Delivery.{AllKept, put-keeps, tcp_poll-keeps}
use oxalyn.Kernel.Tcp.Flow.{Flow, span, react-Flow, stays, leaves, Answers, is_opening, SamePeer}
use oxalyn.Kernel.Tcp.Session.{
  Use, polls, sends, receives, closes, after, heard, session, HonestPackets, HonestUse, HonestUses,
}

module _ (P : TcpConn → Type 0)
    (any : (c : TcpConn) (x : ℕ) → P c → P (record c { snd_nxt = x })) where
  abbrev Sent : Option (ℕ × Net × TcpConn) → Type 0
  Sent none = Unit {0}
  Sent (some r) = P r.2

  send_chunks-Sent :
      (fuel : ℕ) (net : Net) (c : TcpConn) (bytes : List ℕ) (sent : ℕ)
      → P c
      → Sent (send_chunks fuel net c bytes sent)
  unfolding send_chunks
  send_chunks-Sent zero net c bytes sent h = tt
  send_chunks-Sent (suc fuel) net c bytes sent h =
      let chunk = min (length bytes) seg_data_max in
      elim (Bool-cases (length bytes == 0)) [
        | inl e ↦ rw e h
        | inr e ↦ elim (Bool-cases (tcp_send_segment net c 24 (take chunk bytes)).0) [
          | inl g ↦
              rw (e, g) (send_chunks-Sent fuel _ _ (drop chunk bytes) (sent + chunk) (any c _ h))
          | inr g ↦ rw (e, g) h
        ]
      ]

  send_result-keeps :
      (t : Tcp) (i k : ℕ) (r : Option (ℕ × Net × TcpConn))
      → P (t.conns k)
      → (i ≡ k → Sent r)
      → P ((send_result t i r).1.conns k)
  send_result-keeps t i k none h s = h
  send_result-keeps t i k (some (sent, net, c)) h s = put-keeps P t i c k h s

  send_at-keeps :
      (t : Tcp) (bytes : List ℕ) (k : ℕ) (o : Option ℕ)
      → P (t.conns k)
      → P ((send_at t bytes o).1.conns k)
  send_at-keeps t bytes k none h = h
  send_at-keeps t bytes k (some i) h = elim (Bool-cases (is_established (t.conns i).state)) [
    | inr e ↦ rw e h
    | inl e ↦ rw e (
        send_result-keeps t i k _ h (λ q.
          send_chunks-Sent (length bytes + 1) t.net (t.conns i) bytes 0
            (subst (λ j. P (t.conns j)) (sym q) h)))
  ]

module _ (f : ℕ → ℕ) (a : ℕ) (before : List ℕ) (origin : TcpConn) where
  abbrev Following : List ℕ → TcpConn → Type 0
  Following = Flow f a before origin

  any_snd_nxt :
      (out : List ℕ) (c : TcpConn) (x : ℕ)
      → Following out c
      → Following out (record c { snd_nxt = x })
  any_snd_nxt out c x v = stays f a before origin out c _ refl refl refl (refl, refl, refl) v

  honest-AllKept :
      (out : List ℕ) (ps : List (List ℕ)) → HonestPackets f origin ps → AllKept (Following out) ps
  honest-AllKept out [] h = tt
  honest-AllKept out (p ∷ ps) h = (
    λ s e n seed c r v m.
        subst (Answers f a before origin (Following out)) m
          (react-Flow f a before origin out c.state n seed c s refl (h.0 s e) v),
    honest-AllKept out ps h.1,
  )

  -- The bytes that are read leave the buffer at its front.
  drained :
      (out : List ℕ) (c : TcpConn) (n : ℕ)
      → Following out c
      → Following (out ++ take n c.rcv_buf) (record c { rcv_buf = drop n c.rcv_buf })
  drained out c n v = record {
    count = v.count;
    flow =
        append_assoc out (take n c.rcv_buf) (drop n c.rcv_buf)
        ∙ ap (λ l. out ++ l) (take-append-drop n c.rcv_buf)
        ∙ v.flow;
    room = let r = v.room in omega (arith, length-drop n c.rcv_buf);
    place = v.place;
    peer = v.peer;
    past = v.past;
  }

  -- A connection that is closed, or that has sent its FIN.
  closing :
      (out : List ℕ) (t : Tcp) (i k : ℕ) (d : TcpConn)
      → d.rcv_buf ≡ (t.conns i).rcv_buf
      → is_established d.state ≡ false
      → is_opening d.state ≡ false
      → SamePeer d (t.conns i)
      → Following out (t.conns k)
      → Following out (update t.conns i d k)
  closing out t i k d b e o p v = put-keeps (Following out) t i d k v (λ q.
      leaves f a before origin out (t.conns i) d b e o p
        (subst (λ j. Following out (t.conns j)) (sym q) v))

  close_conn-keeps :
      (out : List ℕ) (t : Tcp) (i k : ℕ) (st : TcpState)
      → Following out (t.conns k)
      → Following out ((close_conn t i st).conns k)
  close_conn-keeps out t i k established v = closing out t i k _ refl refl refl (refl, refl, refl) v
  close_conn-keeps out t i k _ v = closing out t i k _ refl refl refl (refl, refl, refl) v

  close_at-keeps :
      (out : List ℕ) (t : Tcp) (k : ℕ) (o : Option ℕ)
      → Following out (t.conns k)
      → Following out ((close_at t o).conns k)
  close_at-keeps out t k none v = v
  close_at-keeps out t k (some i) v = close_conn-keeps out t i k (t.conns i).state v

  -- The bytes that go to the reader of `k`.
  recv_at-keeps :
      (out : List ℕ) (t : Tcp) (i k n : ℕ) (b : Bool)
      → Following out (t.conns k)
      → let r = recv_at t n (if b then some i else none) in
        Following (out ++ (if i == k then r.0 else [])) (r.1.conns k)
  recv_at-keeps out t i k n false v = elim (Bool-cases (i == k)) [
    | inl e ↦ rw (e, append-nil) v
    | inr e ↦ rw (e, append-nil) v
  ]
  recv_at-keeps out t i k n true v =
      let c = t.conns i in
      let d = record c { rcv_buf = drop n c.rcv_buf } in
      elim (Bool-cases (i == k)) [
        | inl e ↦
            let q : i ≡ k = (==_iff i k).0 e in
            let here : Following (out ++ take n c.rcv_buf) (update t.conns i d i) =
              rw (update_self t.conns i d)
                (drained out c n (subst (λ j. Following out (t.conns j)) (sym q) v)) in
            rw e (subst (λ j. Following (out ++ take n c.rcv_buf) (update t.conns i d j)) q here)
        | inr e ↦
            let q : k ≢ i = λ w. ground arith in rw (e, append-nil, update-ne t.conns i d k q) v
      ]

  after-keeps :
      (out : List ℕ) (t : Tcp) (k : ℕ) (u : Use)
      → HonestUse f origin u
      → Following out (t.conns k)
      → Following (out ++ heard k t u) ((after t u).conns k)
  unfolding after heard tcp_send tcp_recv tcp_close tcp_get_conn
  after-keeps out t k (polls ps) h v =
      rw append-nil (tcp_poll-keeps (Following out) t ps k (honest-AllKept out ps h) v)
  after-keeps out t k (sends id bytes) h v =
      rw append-nil
        (send_at-keeps (Following out) (any_snd_nxt out) t bytes k (tcp_get_conn t id) v)
  after-keeps out t k (receives (pos i) n) h v =
      recv_at-keeps out t i k n (ltb i 8 && (t.conns i).used) v
  after-keeps out t k (receives (negsuc i) n) h v = rw append-nil v
  after-keeps out t k (closes id) h v = rw append-nil (close_at-keeps out t k (tcp_get_conn t id) v)

  session-keeps :
      (out : List ℕ) (t : Tcp) (k : ℕ) (us : List Use)
      → HonestUses f origin us
      → Following out (t.conns k)
      → Following (out ++ (session k t us).1) ((session k t us).0.conns k)
  unfolding session
  session-keeps out t k [] h v = rw append-nil v
  session-keeps out t k (u ∷ us) h v =
      rw (← append_assoc out (heard k t u) (session k (after t u) us).1)
        (session-keeps (out ++ heard k t u) (after t u) k us h.1 (after-keeps out t k u h.0 v))

-- A connection that is established, with a buffer of at most 1024 bytes: the peer's packets carry
-- the bytes of its stream `f` at their sequence numbers, in any order, repeated or lost; other
-- packets are arbitrary. Then, whatever the program sends, receives and closes meanwhile, the bytes
-- that it reads from the connection, with those still in the buffer, are those in the buffer at
-- first and the next ones of the stream, without a gap, a repetition or a byte of another
-- connection; and the buffer never holds more than 1024 bytes.
pub session_stream :
    (f : ℕ → ℕ) (t : Tcp) (k : ℕ) (us : List Use)
    → (t.conns k).state ≡ established
    → length (t.conns k).rcv_buf ≤ tcp_buffer_size
    → (t.conns k).rcv_nxt < 2 ^ 32
    → HonestUses f (t.conns k) us
    → let (t', read) = session k t us in
      ((n : ℕ) × (read ++ (t'.conns k).rcv_buf
          ≡ (t.conns k).rcv_buf ++ span f (t.conns k).rcv_nxt n))
      × (length (t'.conns k).rcv_buf ≤ tcp_buffer_size)
unfolding span
session_stream f t k us e room word h =
    let c = t.conns k in
    let start : Flow f c.rcv_nxt c.rcv_buf c [] c = record {
      count = 0;
      flow = sym (append-nil c.rcv_buf);
      room = room;
      place = λ q. omega arith;
      peer = (refl, refl, refl);
      past = rw e refl;
    } in
    let v = session-keeps f c.rcv_nxt c.rcv_buf c [] t k us h start in ((v.count, v.flow), v.room)
