-- ===== src/Kernel/Tcp/Stream/Chunks.antt =====
-- The chunks that tcp_send cuts the data into.
use oxalyn.Base.{
  ℕ, zero, suc, ◌+◌, ◌-◌, ◌^◌, ◌≡◌, ◌≤◌, ◌<◌, ◌⊎◌, min, refl, [], ◌∷◌, ◌++◌, false, Option, none,
  some, List, inl, inr, Bool-cases, arith, length, take, drop, u32, add32, ◌==◌, length-take,
  length-drop,
}
use oxalyn.Base.Int.{ℤ, pos, negsuc}
use oxalyn.Kernel.Net.{Net}
use oxalyn.Kernel.Tcp.{TcpConn, Tcp, tcp_get_conn, tcp_send_segment}
use oxalyn.Kernel.Tcp.Stream.Carried.{
  carried, carried_more, frames_more, too_long, tcp_send_segment-cases,
}
use oxalyn.Kernel.Tcp.Stream.{is_established, seg_data_max, send_chunks, send_at, tcp_send}

-- The loop ends, on fuel for a round more than there are bytes. What it counts is what it has
-- sent: the frames that the card has taken carry the first bytes of the data, as many as are
-- counted, in order and nothing else, and `snd_nxt` (a 32-bit number) has moved on by as many.
-- Either all are counted and the card has reported no error, or the loop stopped at a segment that
-- was refused: with more than 1464 bytes left, or by the card, which counts one error.
pub send_chunks_ends :
    (fuel : ℕ) (net : Net) (c : TcpConn) (bytes : List ℕ) (sent : ℕ)
    → length bytes < fuel
    → c.snd_nxt < 2 ^ 32
    → (r : ℕ × Net × TcpConn) × (send_chunks fuel net c bytes sent ≡ some r)
      × (sent ≤ r.0)
      × (r.0 ≤ sent + length bytes)
      × (r.2.snd_nxt ≡ u32 (c.snd_nxt + (r.0 - sent)))
      × ((ps : List (List ℕ)) × (r.1.sent ≡ ps ++ net.sent)
          × (carried ps ≡ take (r.0 - sent) bytes))
      × (((r.0 ≡ sent + length bytes) × (r.1.tx_errors ≡ net.tx_errors))
          ⊎ ((1464 < sent + length bytes - r.0) ⊎ (r.1.tx_errors ≡ net.tx_errors + 1)))
unfolding send_chunks
send_chunks_ends zero net c bytes sent h w = absurd (omega arith)
send_chunks_ends (suc fuel) net c bytes sent h w =
    let chunk = min (length bytes) seg_data_max in
    let (gone, net') = tcp_send_segment net c 24 (take chunk bytes) in
    let nothing : sent - sent ≡ 0 = omega arith in
    let taken = length-take chunk bytes in
    elim (Bool-cases (length bytes == 0)) [
      | inl e ↦ (
        (sent, net, c),
        rw e refl,
        omega arith,
        omega arith,
        omega arith,
        ([], refl, rw nothing refl),
        inl (ground arith, refl),
      )
      | inr e ↦
          let more : 0 < length bytes = ground arith in
          elim (tcp_send_segment-cases net c 24 (take chunk bytes)) [
            | inl (g, same, why) ↦ (
              (sent, net', c),
              rw (e, g) refl,
              omega arith,
              omega arith,
              omega arith,
              ([], same, rw nothing refl),
              inr (elim why [ inl long ↦ inl (omega arith) | inr err ↦ inr err ]),
            )
            | inr (g, (p, one, data_of), same) ↦
                let left = length-drop chunk bytes in
                let (r, ends, lo, hi, nxt, (ps, frames, all), why) =
                  send_chunks_ends fuel net' (record c { snd_nxt = add32 c.snd_nxt chunk })
                    (drop chunk bytes) (sent + chunk) (omega arith) (omega arith) in
                let sum : chunk + (r.0 - (sent + chunk)) ≡ r.0 - sent = omega arith in
                (
                  r,
                  rw (e, g) ends,
                  omega arith,
                  omega arith,
                  omega arith,
                  (
                    ps ++ p ∷ [],
                    frames_more r.1.sent net'.sent net.sent ps p frames one,
                    carried_more chunk (r.0 - (sent + chunk)) (r.0 - sent) bytes ps p sum data_of
                        all,
                  ),
                  elim why [
                    | inl (done, err) ↦ inl (omega arith, omega arith)
                    | inr (inl long) ↦ inr (inl (omega arith))
                    | inr (inr err) ↦ inr (inr (omega arith))
                  ],
                )
          ]
    ]

send_chunks-long :
    (fuel : ℕ) (net : Net) (c : TcpConn) (bytes : List ℕ)
    → 1464 < length bytes
    → send_chunks (suc fuel) net c bytes 0 ≡ some (0, net, c)
unfolding send_chunks
send_chunks-long fuel net c bytes h =
    let chunk = min (length bytes) seg_data_max in
    let e : (length bytes == 0) ≡ false = ground arith in
    let long : 1464 < length (take chunk bytes) = omega (arith, length-take chunk bytes) in
    rw (e, too_long net c 24 (take chunk bytes) long) refl

long_at :
    (t : Tcp) (bytes : List ℕ) (o : Option ℕ)
    → 1464 < length bytes
    → (((send_at t bytes o).0 ≡ pos 0) ⊎ ((send_at t bytes o).0 ≡ negsuc 0))
      × ((send_at t bytes o).1.net ≡ t.net)
long_at t bytes none h = (inr refl, refl)
long_at t bytes (some i) h = elim (Bool-cases (is_established (t.conns i).state)) [
  | inr e ↦ rw e (inr refl, refl)
  | inl e ↦
      let none_sent : send_chunks (length bytes + 1) t.net (t.conns i) bytes 0
          ≡ some (0, t.net, t.conns i) =
        let z : length bytes + 1 ≡ suc (length bytes) = omega arith in
        rw z (send_chunks-long (length bytes) t.net (t.conns i) bytes h) in
      rw (e, none_sent) (inl refl, refl)
]

-- tcp_send of more than 1464 bytes sends nothing at all: its first chunk is more than ip_send takes.
-- The answer is 0 bytes, or the error for a connection that is not established.
tcp_send_long :
    (t : Tcp) (id : ℤ) (bytes : List ℕ)
    → 1464 < length bytes
    → (((tcp_send t id bytes).0 ≡ pos 0) ⊎ ((tcp_send t id bytes).0 ≡ negsuc 0))
      × ((tcp_send t id bytes).1.net ≡ t.net)
unfolding tcp_send
tcp_send_long t id bytes h = long_at t bytes (tcp_get_conn t id) h
