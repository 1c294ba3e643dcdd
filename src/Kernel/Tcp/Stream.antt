-- ===== src/Kernel/Tcp/Stream.antt =====
-- The calls of kernel/tcp.c on a connection that is set up: accept, send, recv, close.
pub mod Carried
pub mod Chunks
use oxalyn.Base.{
  ℕ, zero, suc, ◌+◌, ◌-◌, min, Bool, true, false, not, ◌&&◌, Option, none, some, List, [], ◌∷◌,
  ◌==◌, ltb, if◌then◌else◌, update, length, take, drop, add32,
}
use oxalyn.Base.Int.{ℤ, pos, negsuc}
use oxalyn.Kernel.Net.{Net}
use oxalyn.Kernel.Tcp.{
  TcpState, closed, syn_sent, syn_recv, established, fin_wait1, fin_wait2, close_wait, last_ack,
  time_wait, TcpConn, Tcp, put, tcp_get_conn, tcp_send_segment, fin, psh, ack,
}

abbrev pub is_established : TcpState → Bool
is_established established = true
is_established _ = false

unfoldable pub tcp_accept : Tcp → ℤ → Option ℕ
unfolding tcp_get_conn
tcp_accept t id = elim (tcp_get_conn t id) [
  | none ↦ none
  | some i ↦ if is_established (t.conns i).state then some i else none
]

-- NET_MTU - TCP_HEADER_SIZE - 20.
abbrev pub seg_data_max : ℕ
seg_data_max = 1478

abbrev pub sent_on : ℕ → Net → TcpConn → ℕ × Net × TcpConn
sent_on n net c = (n, net, c)

-- The loop over the bytes that are left, with fuel; `none` is no end.
unfoldable pub send_chunks : ℕ → Net → TcpConn → List ℕ → ℕ → Option (ℕ × Net × TcpConn)
unfolding tcp_send_segment
send_chunks zero net c bytes sent = none
send_chunks (suc fuel) net c bytes sent =
    let chunk = min (length bytes) seg_data_max in
    let (gone, net') = tcp_send_segment net c 24 (take chunk bytes) in
    let rest =
      send_chunks fuel net' (record c { snd_nxt = add32 c.snd_nxt chunk }) (drop chunk bytes)
        (sent + chunk) in
    let stopped = some (sent, net', c) in
    if length bytes == 0 then some (sent, net, c) else if gone then rest else stopped

abbrev pub send_result : Tcp → ℕ → Option (ℕ × Net × TcpConn) → ℤ × Tcp
send_result t i none = (negsuc 0, t)
send_result t i (some (sent, net, c)) = (pos sent, put (record t { net = net }) i c)

-- One round more than there are bytes is enough.
abbrev pub send_at : Tcp → List ℕ → Option ℕ → ℤ × Tcp
send_at t bytes none = (negsuc 0, t)
send_at t bytes (some i) =
    if is_established (t.conns i).state
    then send_result t i (send_chunks (length bytes + 1) t.net (t.conns i) bytes 0)
    else (negsuc 0, t)

unfoldable pub tcp_send : Tcp → ℤ → List ℕ → ℤ × Tcp
unfolding tcp_get_conn
tcp_send t id bytes = send_at t bytes (tcp_get_conn t id)

-- The bytes that reach the caller's buffer of `maxlen` bytes.
abbrev pub recv_at : Tcp → ℕ → Option ℕ → List ℕ × Tcp
recv_at t maxlen none = ([], t)
recv_at t maxlen (some i) =
    let c = t.conns i in
    (take maxlen c.rcv_buf, put t i (record c { rcv_buf = drop maxlen c.rcv_buf }))

unfoldable pub tcp_recv : Tcp → ℤ → ℕ → List ℕ × Tcp
unfolding tcp_get_conn
tcp_recv t id maxlen = recv_at t maxlen (tcp_get_conn t id)

abbrev pub close_conn : Tcp → ℕ → TcpState → Tcp
close_conn t i established =
    let c = t.conns i in
    let net = (tcp_send_segment t.net c 17 []).1 in
    put (record t { net = net }) i (record c { snd_nxt = add32 c.snd_nxt 1; state = fin_wait1 })
close_conn t i s = put t i (record (t.conns i) { state = closed; used = false })

abbrev pub close_at : Tcp → Option ℕ → Tcp
close_at t none = t
close_at t (some i) = close_conn t i (t.conns i).state

unfoldable pub tcp_close : Tcp → ℤ → Tcp
unfolding tcp_get_conn
tcp_close t id = close_at t (tcp_get_conn t id)
